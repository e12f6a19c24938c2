-- ===== src/Protocol/Bounds/Words.antt =====
-- The readers of internal/protocol/datainx.go stay within the buffer.
use scouter_server_go.Common.{ℕ, zero, suc, ◌^◌, [], ◌∷◌, ltb, ◌==◌}
use scouter_server_go.Protocol.Input.{
  Reader, read_boolean, read_int16, read_uint16, read_int32, read_int64, read_float32, read_float64,
  read_int3, read_long5, read_decimal_body, read_decimal, read_decimal32, read_blob_body, read_blob,
  read_text, read_times, read_array, read_counted, read_decimal_array, read_decimal_int_array,
}
use scouter_server_go.Protocol.Bounds.{
  InBounds, InBounds-return, InBounds-crash, InBounds-if, InBounds-bind, InBounds-bytes,
  InBounds-read, InBounds-byte,
}

ruleset rules =
    (InBounds-return, InBounds-crash, InBounds-bind, InBounds-bytes, InBounds-read, InBounds-byte)

pub InBounds-boolean : InBounds read_boolean
unfolding read_boolean
InBounds-boolean = search rules

pub InBounds-int16 : InBounds read_int16
unfolding read_int16
InBounds-int16 = search rules

pub InBounds-uint16 : InBounds read_uint16
unfolding read_uint16
InBounds-uint16 = search rules

pub InBounds-int32 : InBounds read_int32
unfolding read_int32
InBounds-int32 = search rules

pub InBounds-int64 : InBounds read_int64
unfolding read_int64
InBounds-int64 = search rules

pub InBounds-float32 : InBounds read_float32
unfolding read_float32
InBounds-float32 = InBounds-int32

pub InBounds-float64 : InBounds read_float64
unfolding read_float64
InBounds-float64 = InBounds-int64

pub InBounds-int3 : InBounds read_int3
unfolding read_int3
InBounds-int3 = search rules

pub InBounds-long5 : InBounds read_long5
unfolding read_long5
InBounds-long5 = search rules

InBounds-decimal_body : (n : ℕ) → InBounds (read_decimal_body n)
unfolding read_decimal_body
InBounds-decimal_body n = InBounds-if (n == 0) (InBounds-return 0) (
    InBounds-if (n == 1) (InBounds-bind InBounds-byte (λ b. InBounds-return _)) (
      InBounds-if (n == 2) (InBounds-bind InBounds-int16 (λ v. InBounds-return _)) (
        InBounds-if (n == 3) (InBounds-bind InBounds-int3 (λ v. InBounds-return _)) (
          InBounds-if (n == 4) (InBounds-bind InBounds-int32 (λ v. InBounds-return _))
            (InBounds-if (n == 5) InBounds-long5 InBounds-int64)))))

pub InBounds-decimal : InBounds read_decimal
unfolding read_decimal
InBounds-decimal = InBounds-bind InBounds-byte InBounds-decimal_body

pub InBounds-decimal32 : InBounds read_decimal32
unfolding read_decimal32
InBounds-decimal32 = InBounds-bind InBounds-decimal (λ v. InBounds-return _)

InBounds-blob_body : (n : ℕ) → InBounds (read_blob_body n)
unfolding read_blob_body
InBounds-blob_body n = InBounds-if (n == 0) (InBounds-return []) (
    InBounds-if (n == 255) (InBounds-bind InBounds-uint16 InBounds-read) (
      InBounds-if (n == 254) (InBounds-bind InBounds-int32 (λ k. InBounds-read _))
        (InBounds-read n)))

pub InBounds-blob : InBounds read_blob
unfolding read_blob
InBounds-blob = InBounds-bind InBounds-byte InBounds-blob_body

pub InBounds-text : InBounds read_text
unfolding read_text
InBounds-text = InBounds-bind InBounds-blob (λ b. InBounds-return b)

module _ {ℓ} {A : Type ℓ} {r : Reader A} (p : InBounds r) where
  pub InBounds-times : (n : ℕ) → InBounds (read_times n r)
  unfolding read_times
  InBounds-times zero = InBounds-return []
  InBounds-times (suc n) =
      InBounds-bind p (λ x. InBounds-bind (InBounds-times n) (λ xs. InBounds-return (x ∷ xs)))

  pub InBounds-array : InBounds (read_array r)
  unfolding read_array
  InBounds-array =
      InBounds-bind InBounds-int16
        (λ n. InBounds-if (ltb n (2 ^ 15)) (InBounds-times n) InBounds-crash)

  pub InBounds-counted : InBounds (read_counted r)
  unfolding read_counted
  InBounds-counted =
      InBounds-bind InBounds-decimal
        (λ n. InBounds-if (ltb n (2 ^ 63)) (InBounds-times n) InBounds-crash)

pub InBounds-decimal_array : InBounds read_decimal_array
unfolding read_decimal_array
InBounds-decimal_array = InBounds-counted InBounds-decimal

pub InBounds-decimal_int_array : InBounds read_decimal_int_array
unfolding read_decimal_int_array
InBounds-decimal_int_array = InBounds-counted InBounds-decimal32

pub ruleset reads = (
  InBounds-return, InBounds-bind, InBounds-byte, InBounds-boolean, InBounds-int16, InBounds-int32,
  InBounds-int64, InBounds-float32, InBounds-float64, InBounds-decimal, InBounds-decimal32,
  InBounds-blob, InBounds-text, InBounds-decimal_array, InBounds-decimal_int_array,
)
