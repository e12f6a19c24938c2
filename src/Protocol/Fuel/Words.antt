-- ===== src/Protocol/Fuel/Words.antt =====
-- The readers of internal/protocol/datainx.go take no fuel.
use scouter_server_go.Common.{ℕ, zero, suc, ◌^◌, [], ◌∷◌, ltb, ◌==◌}
use scouter_server_go.Protocol.Input.{
  read_counted, read_decimal_array, read_decimal_int_array, Reader, read_boolean, read_int16,
  read_uint16, read_int32, read_int64, read_float32, read_float64, read_int3, read_long5,
  read_decimal_body, read_decimal, read_decimal32, read_blob_body, read_blob, read_text, read_times,
  read_array,
}
use scouter_server_go.Protocol.Bounds.{InBounds, InBounds-bytes, InBounds-read, InBounds-byte}
use scouter_server_go.Protocol.Bounds.Words.{
  InBounds-decimal32, InBounds-int16, InBounds-uint16, InBounds-int32, InBounds-int3, InBounds-blob,
  InBounds-decimal, InBounds-times,
}
use scouter_server_go.Protocol.Fuel.{
  HasFuel, HasFuel-return, HasFuel-crash, HasFuel-if, HasFuel-bind, HasFuel-bytes, HasFuel-read,
  HasFuel-byte,
}

module _ {n : ℕ} where
  pub HasFuel-boolean : HasFuel n read_boolean
  unfolding read_boolean
  HasFuel-boolean = HasFuel-bind InBounds-byte HasFuel-byte (λ b. HasFuel-return _)

  pub HasFuel-int16 : HasFuel n read_int16
  unfolding read_int16
  HasFuel-int16 = HasFuel-bind (InBounds-bytes 2) (HasFuel-bytes 2) (λ b. HasFuel-return _)

  HasFuel-uint16 : HasFuel n read_uint16
  unfolding read_uint16
  HasFuel-uint16 = HasFuel-bind (InBounds-bytes 2) (HasFuel-bytes 2) (λ b. HasFuel-return _)

  pub HasFuel-int32 : HasFuel n read_int32
  unfolding read_int32
  HasFuel-int32 = HasFuel-bind (InBounds-bytes 4) (HasFuel-bytes 4) (λ b. HasFuel-return _)

  pub HasFuel-int64 : HasFuel n read_int64
  unfolding read_int64
  HasFuel-int64 = HasFuel-bind (InBounds-bytes 8) (HasFuel-bytes 8) (λ b. HasFuel-return _)

  pub HasFuel-float32 : HasFuel n read_float32
  unfolding read_float32
  HasFuel-float32 = HasFuel-int32

  pub HasFuel-float64 : HasFuel n read_float64
  unfolding read_float64
  HasFuel-float64 = HasFuel-int64

  HasFuel-int3 : HasFuel n read_int3
  unfolding read_int3
  HasFuel-int3 = HasFuel-bind (InBounds-read 3) (HasFuel-read 3) (λ b. HasFuel-return _)

  HasFuel-long5 : HasFuel n read_long5
  unfolding read_long5
  HasFuel-long5 = HasFuel-bind (InBounds-read 5) (HasFuel-read 5) (λ b. HasFuel-return _)

  HasFuel-decimal_body : (k : ℕ) → HasFuel n (read_decimal_body k)
  unfolding read_decimal_body
  HasFuel-decimal_body k = HasFuel-if (k == 0) (HasFuel-return 0) (
      HasFuel-if (k == 1) (HasFuel-bind InBounds-byte HasFuel-byte (λ b. HasFuel-return _)) (
        HasFuel-if (k == 2) (HasFuel-bind InBounds-int16 HasFuel-int16 (λ v. HasFuel-return _)) (
          HasFuel-if (k == 3) (HasFuel-bind InBounds-int3 HasFuel-int3 (λ v. HasFuel-return _)) (
            HasFuel-if (k == 4) (HasFuel-bind InBounds-int32 HasFuel-int32 (λ v. HasFuel-return _))
              (HasFuel-if (k == 5) HasFuel-long5 HasFuel-int64)))))

  pub HasFuel-decimal : HasFuel n read_decimal
  unfolding read_decimal
  HasFuel-decimal = HasFuel-bind InBounds-byte HasFuel-byte HasFuel-decimal_body

  pub HasFuel-decimal32 : HasFuel n read_decimal32
  unfolding read_decimal32
  HasFuel-decimal32 = HasFuel-bind InBounds-decimal HasFuel-decimal (λ v. HasFuel-return _)

  HasFuel-blob_body : (k : ℕ) → HasFuel n (read_blob_body k)
  unfolding read_blob_body
  HasFuel-blob_body k = HasFuel-if (k == 0) (HasFuel-return []) (
      HasFuel-if (k == 255) (HasFuel-bind InBounds-uint16 HasFuel-uint16 (λ m. HasFuel-read m)) (
        HasFuel-if (k == 254) (HasFuel-bind InBounds-int32 HasFuel-int32 (λ m. HasFuel-read _))
          (HasFuel-read k)))

  pub HasFuel-blob : HasFuel n read_blob
  unfolding read_blob
  HasFuel-blob = HasFuel-bind InBounds-byte HasFuel-byte HasFuel-blob_body

  pub HasFuel-text : HasFuel n read_text
  unfolding read_text
  HasFuel-text = HasFuel-bind InBounds-blob HasFuel-blob (λ b. HasFuel-return b)

module _ {ℓ} {A : Type ℓ} {n : ℕ} {r : Reader A} (i : InBounds r) (p : HasFuel n r) where
  HasFuel-times : (k : ℕ) → HasFuel n (read_times k r)
  unfolding read_times
  HasFuel-times zero = HasFuel-return []
  HasFuel-times (suc k) =
      HasFuel-bind i p
        (λ x. HasFuel-bind (InBounds-times i k) (HasFuel-times k) (λ xs. HasFuel-return (x ∷ xs)))

  pub HasFuel-array : HasFuel n (read_array r)
  unfolding read_array
  HasFuel-array =
      HasFuel-bind InBounds-int16 HasFuel-int16
        (λ k. HasFuel-if (ltb k (2 ^ 15)) (HasFuel-times k) HasFuel-crash)

  pub HasFuel-counted : HasFuel n (read_counted r)
  unfolding read_counted
  HasFuel-counted =
      HasFuel-bind InBounds-decimal HasFuel-decimal
        (λ k. HasFuel-if (ltb k (2 ^ 63)) (HasFuel-times k) HasFuel-crash)

pub HasFuel-decimal_array : {n : ℕ} → HasFuel n read_decimal_array
unfolding read_decimal_array
HasFuel-decimal_array = HasFuel-counted InBounds-decimal HasFuel-decimal

pub HasFuel-decimal_int_array : {n : ℕ} → HasFuel n read_decimal_int_array
unfolding read_decimal_int_array
HasFuel-decimal_int_array = HasFuel-counted InBounds-decimal32 HasFuel-decimal32

pub ruleset fuel_reads = (
  HasFuel-return, HasFuel-bind, HasFuel-byte, HasFuel-boolean, HasFuel-int16, HasFuel-int32,
  HasFuel-int64, HasFuel-float32, HasFuel-float64, HasFuel-decimal, HasFuel-decimal32, HasFuel-blob,
  HasFuel-text, HasFuel-decimal_array, HasFuel-decimal_int_array,
)
