-- ===== src/Protocol/SliceCodec.antt =====
-- Blobs, texts and arrays are read back, whichever form their length takes.
use mathlib.Core.Path.{subst}
use scouter_server_go.Common.{
  ℕ, ◌%◌, ◌^◌, ◌≤◌, ◌<◌, ◌≡◌, ◌==◌, leb, List, [], ◌∷◌, length, arith, All,
}
use scouter_server_go.Protocol.Word.{IsI32, IsI64, i64_of_i32, to_byte, to_i16, to_i32}
use scouter_server_go.Protocol.Output.{
  Writer, ◌⨾◌, write_none, write, write_byte, write_int16, write_uint16, write_int32, write_int64,
  write_float32, write_blob, write_text, write_short_bytes, write_each, write_array_int,
  write_array_long, write_array_float, write_decimal, write_decimal_array, write_decimal_int_array,
}
use scouter_server_go.Protocol.Input.{
  Reader, read, read_blob_body, read_blob, read_text, read_short_bytes, read_times, read_array,
  read_array_int, read_array_long, read_array_float, read_counted, read_decimal32, read_decimal,
  read_decimal_array, read_decimal_int_array, read_int32, read_int64, read_float32,
}
use scouter_server_go.Protocol.Codec.{
  RoundTrips, RoundTrips-return, RoundTrips-seq, RoundTrips-last, RoundTrips-if,
}
use scouter_server_go.Protocol.WordCodec.{
  RoundTrips-bytes, RoundTrips-byte, RoundTrips-int16, RoundTrips-uint16, RoundTrips-int32,
  RoundTrips-int64, RoundTrips-float32,
}
use scouter_server_go.Protocol.DecimalCodec.{RoundTrips-decimal, RoundTrips-decimal32}

RoundTrips-read :
    (n : ℕ) (b : List ℕ) → length b ≡ n → 0 < n → n < 2 ^ 63 → RoundTrips (write b) (read n) b
unfolding read
RoundTrips-read n b e p h =
    subst (λ r. RoundTrips (write b) r b) (ground arith) (RoundTrips-bytes b (omega arith))

tagged_blob :
    (n : ℕ) {w : Writer} {b : List ℕ}
    → RoundTrips w (read_blob_body n) b
    → RoundTrips (write_byte n ⨾ w) read_blob b
unfolding read_blob
tagged_blob n p = RoundTrips-seq read_blob_body (RoundTrips-byte n) p

empty_blob : (b : List ℕ) → length b ≡ 0 → RoundTrips (write_byte 0) read_blob b
unfolding ◌⨾◌ write_none read_blob_body
empty_blob [] e = tagged_blob 0 (RoundTrips-return [])
empty_blob (x ∷ b) e = absurd (omega arith)

short_blob :
    (n : ℕ) (b : List ℕ)
    → length b ≡ n
    → 0 < n
    → n ≤ 253
    → RoundTrips (write b) (read_blob_body n) b
unfolding read_blob_body
short_blob n b e p h =
    subst (λ r. RoundTrips (write b) r b) (ground arith) (RoundTrips-read n b e p (omega arith))

-- The longest slice whose length an int32 holds.
abbrev pub IsBlob : List ℕ → Type 0
IsBlob b = length b < 2 ^ 31

pub RoundTrips-blob : (b : List ℕ) → IsBlob b → RoundTrips (write_blob b) read_blob b
unfolding write_blob read_blob_body
RoundTrips-blob b h =
    let n = length b in
    RoundTrips-if (n == 0) (λ e. empty_blob b (ground arith))
      λ z.
        RoundTrips-if (leb n 253)
          (λ e.
            tagged_blob _ (short_blob (to_byte n) b (ground arith) (ground arith) (ground arith)))
          λ _.
            RoundTrips-if (leb n 65535)
              (λ e. tagged_blob 255 (
                RoundTrips-seq read (RoundTrips-uint16 (to_i16 n) (omega arith))
                  (RoundTrips-read (to_i16 n) b (ground arith) (ground arith) (omega arith))))
              λ _. tagged_blob 254 (
                RoundTrips-seq (λ k. read (i64_of_i32 k))
                  (RoundTrips-int32 (to_i32 n) (omega arith))
                  (RoundTrips-read (i64_of_i32 (to_i32 n)) b (ground arith) (ground arith)
                    (ground arith)))

pub RoundTrips-text : (b : List ℕ) → IsBlob b → RoundTrips (write_text b) read_text b
unfolding write_text read_text
RoundTrips-text b h =
    RoundTrips-if (length b == 0) (λ e. RoundTrips-last (λ x. x) (empty_blob b (ground arith)))
      λ _. RoundTrips-last (λ x. x) (RoundTrips-blob b h)

pub RoundTrips-short_bytes :
    (b : List ℕ)
    → 0 < length b
    → length b < 2 ^ 16
    → RoundTrips (write_short_bytes b) read_short_bytes b
unfolding write_short_bytes read_short_bytes write_int16 write_uint16
RoundTrips-short_bytes b p h =
    RoundTrips-seq read (RoundTrips-uint16 (to_i16 (length b)) (omega arith))
      (RoundTrips-read (to_i16 (length b)) b (omega arith) (omega arith) (omega arith))

module _ {ℓ} {A : Type ℓ} (w : A → Writer) (r : Reader A) (P : A → Type 0) where
  pub RoundTrips-each :
      ((x : A) → P x → RoundTrips (w x) r x)
      → (xs : List A) → All P xs
      → RoundTrips (write_each w xs) (read_times (length xs) r) xs
  unfolding write_each read_times
  RoundTrips-each each [] h = RoundTrips-return []
  RoundTrips-each each (x ∷ xs) h =
      RoundTrips-seq _ (each x h.0) (RoundTrips-last (◌∷◌ x) (RoundTrips-each each xs h.1))

  pub RoundTrips-array :
      ((x : A) → P x → RoundTrips (w x) r x)
      → (xs : List A) → length xs < 2 ^ 15
      → All P xs
      → RoundTrips (write_int16 (to_i16 (length xs)) ⨾ write_each w xs) (read_array r) xs
  unfolding read_array
  RoundTrips-array each xs h hs =
      RoundTrips-seq _ (RoundTrips-int16 (to_i16 (length xs)) (omega arith))
        (subst (λ m. RoundTrips (write_each w xs) m xs) (ground arith) (RoundTrips-each each xs hs))

  pub RoundTrips-counted :
      ((x : A) → P x → RoundTrips (w x) r x)
      → (xs : List A) → length xs < 2 ^ 63
      → All P xs
      → RoundTrips (write_decimal (length xs % 2 ^ 64) ⨾ write_each w xs) (read_counted r) xs
  unfolding read_counted
  RoundTrips-counted each xs h hs =
      RoundTrips-seq _ (RoundTrips-decimal (length xs % 2 ^ 64) (omega arith))
        (subst (λ m. RoundTrips (write_each w xs) m xs) (ground arith) (RoundTrips-each each xs hs))

pub RoundTrips-array_int :
    (v : List ℕ) → length v < 2 ^ 15 → All IsI32 v → RoundTrips (write_array_int v) read_array_int v
unfolding write_array_int read_array_int
RoundTrips-array_int = RoundTrips-array write_int32 read_int32 IsI32 RoundTrips-int32

pub RoundTrips-array_long :
    (v : List ℕ)
    → length v < 2 ^ 15
    → All IsI64 v
    → RoundTrips (write_array_long v) read_array_long v
unfolding write_array_long read_array_long
RoundTrips-array_long = RoundTrips-array write_int64 read_int64 IsI64 RoundTrips-int64

pub RoundTrips-array_float :
    (v : List ℕ)
    → length v < 2 ^ 15
    → All IsI32 v
    → RoundTrips (write_array_float v) read_array_float v
unfolding write_array_float read_array_float
RoundTrips-array_float = RoundTrips-array write_float32 read_float32 IsI32 RoundTrips-float32

pub RoundTrips-decimal_array :
    (v : List ℕ)
    → length v < 2 ^ 63
    → All IsI64 v
    → RoundTrips (write_decimal_array v) read_decimal_array v
unfolding write_decimal_array read_decimal_array
RoundTrips-decimal_array = RoundTrips-counted write_decimal read_decimal IsI64 RoundTrips-decimal

pub RoundTrips-decimal_int_array :
    (v : List ℕ)
    → length v < 2 ^ 63
    → All IsI32 v
    → RoundTrips (write_decimal_int_array v) read_decimal_int_array v
unfolding write_decimal_int_array read_decimal_int_array
RoundTrips-decimal_int_array =
    RoundTrips-counted (λ x. write_decimal (i64_of_i32 x)) read_decimal32 IsI32 RoundTrips-decimal32
