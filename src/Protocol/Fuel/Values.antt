-- ===== src/Protocol/Fuel/Values.antt =====
-- ReadValue ends on every input: the fuel of the model never runs out while it exceeds the number
-- of bytes that are left.
use scouter_server_go.Common.{ℕ, zero, suc, ◌-◌, ◌^◌, ◌≤◌, ◌<◌, ◌≢◌, ◌==◌, ltb, length, arith}
use scouter_server_go.Protocol.Input.{
  DataInputX, stuck, Reader, read_array_int, read_array_long, read_array_float,
}
use scouter_server_go.Protocol.Bounds.{InBounds, InBounds-read}
use scouter_server_go.Protocol.Bounds.Words.{
  InBounds-boolean, InBounds-text, InBounds-decimal, InBounds-float32, InBounds-float64,
  InBounds-int32, InBounds-int64, InBounds-blob,
}
use scouter_server_go.Protocol.Bounds.Values.{
  InBounds-double_summary, InBounds-long_summary, InBounds-text_array, InBounds-array_int,
  InBounds-array_float, InBounds-array_long, InBounds-values, InBounds-entries, InBounds-list_value,
  InBounds-map_value, InBounds-value,
}
use scouter_server_go.Protocol.Fuel.{
  HasFuel, HasFuel-return, HasFuel-crash, HasFuel-if, HasFuel-bind, HasFuel-read, HasFuel-created,
  CreatesHasFuel, created_if, HasFuel-byte_bind, HasFuel-byte_bind_empty,
}
use scouter_server_go.Protocol.Fuel.Words.{
  HasFuel-boolean, HasFuel-text, HasFuel-decimal, HasFuel-float32, HasFuel-float64, HasFuel-int32,
  HasFuel-int64, HasFuel-blob, HasFuel-array,
}
use scouter_server_go.Protocol.Value.{Value}
use scouter_server_go.Protocol.Value.Read.{
  read_double_summary, read_long_summary, read_text_array, read_values, read_entries,
  read_list_value, read_map_value, create_value, read_value,
}

module _ (n : ℕ) {element : Reader Value} (i : InBounds element) (p : HasFuel n element) where
  HasFuel-values : (k : ℕ) → HasFuel n (read_values k element)
  unfolding read_values
  HasFuel-values zero = HasFuel-return _
  HasFuel-values (suc k) =
      HasFuel-bind i p
        (λ v. HasFuel-bind (InBounds-values i k) (HasFuel-values k) (λ vs. HasFuel-return _))

  HasFuel-entries : (k : ℕ) → HasFuel n (read_entries k element)
  unfolding read_entries
  HasFuel-entries zero = HasFuel-return _
  HasFuel-entries (suc k) = HasFuel-bind InBounds-text HasFuel-text (λ x.
      HasFuel-bind i p
        (λ v. HasFuel-bind (InBounds-entries i k) (HasFuel-entries k) (λ es. HasFuel-return _)))

  HasFuel-list_value : HasFuel n (read_list_value element)
  unfolding read_list_value
  HasFuel-list_value =
      HasFuel-bind InBounds-decimal HasFuel-decimal
        (λ k. HasFuel-if (ltb k (2 ^ 63)) (HasFuel-values k) HasFuel-crash)

  pub HasFuel-map_value : HasFuel n (read_map_value element)
  unfolding read_map_value
  HasFuel-map_value =
      HasFuel-bind InBounds-decimal HasFuel-decimal
        (λ k. HasFuel-if (ltb k (2 ^ 63)) (HasFuel-entries k) HasFuel-crash)

  HasFuel-double_summary : HasFuel n read_double_summary
  unfolding read_double_summary
  HasFuel-double_summary = HasFuel-bind InBounds-float64 HasFuel-float64 (λ a.
      HasFuel-bind InBounds-int32 HasFuel-int32 (λ b.
        HasFuel-bind InBounds-float64 HasFuel-float64
          (λ c. HasFuel-bind InBounds-float64 HasFuel-float64 (λ d. HasFuel-return _))))

  HasFuel-long_summary : HasFuel n read_long_summary
  unfolding read_long_summary
  HasFuel-long_summary = HasFuel-bind InBounds-int64 HasFuel-int64 (λ a.
      HasFuel-bind InBounds-int32 HasFuel-int32 (λ b.
        HasFuel-bind InBounds-int64 HasFuel-int64
          (λ c. HasFuel-bind InBounds-int64 HasFuel-int64 (λ d. HasFuel-return _))))

  create_value-HasFuel : (t : ℕ) → CreatesHasFuel n (create_value element t)
  unfolding create_value read_array_int read_array_float read_array_long read_text_array
  create_value-HasFuel t = created_if n (t == 0) _ (HasFuel-return _) (
      created_if n (t == 10) _
        (HasFuel-bind InBounds-boolean HasFuel-boolean (λ x. HasFuel-return _))
        (created_if n (t == 20) _
          (HasFuel-bind InBounds-decimal HasFuel-decimal (λ x. HasFuel-return _))
          (created_if n (t == 30) _
            (HasFuel-bind InBounds-float32 HasFuel-float32 (λ x. HasFuel-return _))
            (created_if n (t == 40) _
              (HasFuel-bind InBounds-float64 HasFuel-float64 (λ x. HasFuel-return _))
              (created_if n (t == 45) _
                (HasFuel-bind InBounds-double_summary HasFuel-double_summary
                  (λ x. HasFuel-return _))
                (created_if n (t == 46) _
                  (HasFuel-bind InBounds-long_summary HasFuel-long_summary (λ x. HasFuel-return _))
                  (created_if n (t == 50) _
                    (HasFuel-bind InBounds-text HasFuel-text (λ x. HasFuel-return _))
                    (created_if n (t == 51) _
                      (HasFuel-bind InBounds-int32 HasFuel-int32 (λ x. HasFuel-return _))
                      (created_if n (t == 60) _
                        (HasFuel-bind InBounds-blob HasFuel-blob (λ x. HasFuel-return _))
                        (created_if n (t == 61) _
                          (HasFuel-bind (InBounds-read 4) (HasFuel-read 4) (λ x. HasFuel-return _))
                          (created_if n (t == 70) _
                            (HasFuel-bind (InBounds-list_value i) HasFuel-list_value
                              (λ x. HasFuel-return _))
                            (created_if n (t == 71) _
                              (HasFuel-bind InBounds-array_int
                                (HasFuel-array InBounds-int32 HasFuel-int32)
                                (λ x. HasFuel-return _))
                              (created_if n (t == 72) _
                                (HasFuel-bind InBounds-array_float
                                  (HasFuel-array InBounds-float32 HasFuel-float32)
                                  (λ x. HasFuel-return _))
                                (created_if n (t == 73) _
                                  (HasFuel-bind InBounds-text_array
                                    (HasFuel-array InBounds-text HasFuel-text)
                                    (λ x. HasFuel-return _))
                                  (created_if n (t == 74) _
                                    (HasFuel-bind InBounds-array_long
                                      (HasFuel-array InBounds-int64 HasFuel-int64)
                                      (λ x. HasFuel-return _))
                                    (created_if n (t == 80) _
                                      (HasFuel-bind (InBounds-map_value i) HasFuel-map_value
                                        (λ x. HasFuel-return _))
                                      (tt)))))))))))))))))

pub HasFuel-value : (f n : ℕ) → n < f → HasFuel n (read_value f)
unfolding read_value
HasFuel-value zero n h = absurd (omega arith)
HasFuel-value (suc f) zero h = HasFuel-byte_bind_empty _
HasFuel-value (suc f) (suc n) h = HasFuel-byte_bind (λ t.
    HasFuel-created n t _
      (create_value-HasFuel n (InBounds-value f) (HasFuel-value f n (omega arith)) t))

-- Fuel above the number of bytes left is enough: ReadValue then returns a value or an error, or
-- panics, on every input.
pub read_value-ne-stuck :
    (f : ℕ) (d : DataInputX)
    → d.offset ≤ length d.buf
    → length d.buf - d.offset < f
    → read_value f d ≢ stuck
read_value-ne-stuck f d h l = (HasFuel-value f (length d.buf - d.offset) l).runs d h (omega arith)
