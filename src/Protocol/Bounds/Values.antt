-- ===== src/Protocol/Bounds/Values.antt =====
-- ReadValue stays within the buffer.
use scouter_server_go.Common.{ℕ, zero, suc, ◌^◌, ◌==◌, ltb}
use scouter_server_go.Protocol.Input.{Reader, read_array_int, read_array_long, read_array_float}
use scouter_server_go.Protocol.Bounds.{
  InBounds, InBounds-return, InBounds-bind, InBounds-if, InBounds-byte, InBounds-created,
  CreatesInBounds, created_if, InBounds-no_fuel, InBounds-crash, InBounds-read,
}
use scouter_server_go.Protocol.Bounds.Words.{
  reads, InBounds-boolean, InBounds-text, InBounds-decimal, InBounds-float32, InBounds-float64,
  InBounds-int32, InBounds-int64, InBounds-blob, InBounds-array,
}
use scouter_server_go.Protocol.Value.{Value}
use scouter_server_go.Protocol.Value.Read.{
  read_double_summary, read_long_summary, read_text_array, read_values, read_entries,
  read_list_value, read_map_value, create_value, read_value,
}

pub InBounds-double_summary : InBounds read_double_summary
unfolding read_double_summary
InBounds-double_summary = search reads depth 20

pub InBounds-long_summary : InBounds read_long_summary
unfolding read_long_summary
InBounds-long_summary = search reads depth 20

pub InBounds-text_array : InBounds read_text_array
unfolding read_text_array
InBounds-text_array = InBounds-array InBounds-text

pub InBounds-array_int : InBounds read_array_int
unfolding read_array_int
InBounds-array_int = InBounds-array InBounds-int32

pub InBounds-array_float : InBounds read_array_float
unfolding read_array_float
InBounds-array_float = InBounds-array InBounds-float32

pub InBounds-array_long : InBounds read_array_long
unfolding read_array_long
InBounds-array_long = InBounds-array InBounds-int64

module _ {element : Reader Value} (p : InBounds element) where
  pub InBounds-values : (n : ℕ) → InBounds (read_values n element)
  unfolding read_values
  InBounds-values zero = InBounds-return _
  InBounds-values (suc n) =
      InBounds-bind p (λ v. InBounds-bind (InBounds-values n) (λ vs. InBounds-return _))

  pub InBounds-entries : (n : ℕ) → InBounds (read_entries n element)
  unfolding read_entries
  InBounds-entries zero = InBounds-return _
  InBounds-entries (suc n) =
      InBounds-bind InBounds-text
        (λ k. InBounds-bind p (λ v. InBounds-bind (InBounds-entries n) (λ es. InBounds-return _)))

  pub InBounds-list_value : InBounds (read_list_value element)
  unfolding read_list_value
  InBounds-list_value =
      InBounds-bind InBounds-decimal
        (λ n. InBounds-if (ltb n (2 ^ 63)) (InBounds-values n) InBounds-crash)

  pub InBounds-map_value : InBounds (read_map_value element)
  unfolding read_map_value
  InBounds-map_value =
      InBounds-bind InBounds-decimal
        (λ n. InBounds-if (ltb n (2 ^ 63)) (InBounds-entries n) InBounds-crash)

  create_value-InBounds : (t : ℕ) → CreatesInBounds (create_value element t)
  unfolding create_value
  create_value-InBounds t = created_if (t == 0) _ (InBounds-return _) (
      created_if (t == 10) _ (InBounds-bind InBounds-boolean (λ x. InBounds-return _)) (
        created_if (t == 20) _ (InBounds-bind InBounds-decimal (λ x. InBounds-return _)) (
          created_if (t == 30) _ (InBounds-bind InBounds-float32 (λ x. InBounds-return _)) (
            created_if (t == 40) _ (InBounds-bind InBounds-float64 (λ x. InBounds-return _)) (
              created_if (t == 45) _
                (InBounds-bind InBounds-double_summary (λ x. InBounds-return _))
                (created_if (t == 46) _
                  (InBounds-bind InBounds-long_summary (λ x. InBounds-return _))
                  (created_if (t == 50) _ (InBounds-bind InBounds-text (λ x. InBounds-return _)) (
                    created_if (t == 51) _ (InBounds-bind InBounds-int32 (λ x. InBounds-return _)) (
                      created_if (t == 60) _ (InBounds-bind InBounds-blob (λ x. InBounds-return _))
                        (created_if (t == 61) _
                          (InBounds-bind (InBounds-read 4) (λ x. InBounds-return _))
                          (created_if (t == 70) _
                            (InBounds-bind InBounds-list_value (λ x. InBounds-return _))
                            (created_if (t == 71) _
                              (InBounds-bind InBounds-array_int (λ x. InBounds-return _))
                              (created_if (t == 72) _
                                (InBounds-bind InBounds-array_float (λ x. InBounds-return _))
                                (created_if (t == 73) _
                                  (InBounds-bind InBounds-text_array (λ x. InBounds-return _))
                                  (created_if (t == 74) _
                                    (InBounds-bind InBounds-array_long (λ x. InBounds-return _))
                                    (created_if (t == 80) _
                                      (InBounds-bind InBounds-map_value (λ x. InBounds-return _))
                                      (tt)))))))))))))))))

pub InBounds-value : (f : ℕ) → InBounds (read_value f)
unfolding read_value
InBounds-value zero = InBounds-no_fuel
InBounds-value (suc f) =
    InBounds-bind InBounds-byte
      (λ t. InBounds-created t _ (create_value-InBounds (InBounds-value f) t))
