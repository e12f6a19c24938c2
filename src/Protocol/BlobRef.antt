-- ===== src/Protocol/BlobRef.antt =====
-- ReadBlobRef of internal/protocol/datainx.go against ReadBlob.
use scouter_server_go.Common.{
  ℕ, ◌^◌, ◌≡◌, refl, ap, ◌==◌, ltb, Bool-cases, inl, inr, [], if◌then◌else◌,
}
use mathlib.Core.Path.{fun_ext}
use scouter_server_go.Protocol.Word.{i64_of_i32}
use scouter_server_go.Protocol.Input.{
  DataInputX, Result, ok, err, panic, stuck, Reader, return, crash, ◌>>=◌, then_with, read_bytes,
  read, read_byte, read_int32, read_blob_body, read_blob, blob_ref_length, slice_ref, read_blob_ref,
}

-- The slice and the copy of `n` bytes.
pub slice_ref-read : (n : ℕ) (d : DataInputX) → slice_ref n d ≡ read n d
unfolding slice_ref read read_bytes crash
slice_ref-read n d = elim (Bool-cases (ltb n (2 ^ 63))) [ inl e ↦ rw e | inr e ↦ rw e ]

then_with_assoc {ℓ} :
    {A B C : Type ℓ} (m : Result (A × DataInputX)) (f : A → Reader B) (g : B → Reader C)
    → then_with (then_with m f) g ≡ then_with m (λ x d. then_with (f x d) g)
then_with_assoc (ok (a, d)) f g = refl
then_with_assoc (err e) f g = refl
then_with_assoc panic f g = refl
then_with_assoc stuck f g = refl

slice_ref-eq-read : slice_ref ≡ read
slice_ref-eq-read = fun_ext (λ n. fun_ext (slice_ref-read n))

-- The switch on the first byte, its length first and the slice behind it.
ref_body :
    (b : ℕ) (d : DataInputX)
    → (if b == 0 then return [] else (blob_ref_length b >>= λ n. slice_ref n)) d
      ≡ read_blob_body b d
unfolding blob_ref_length read_blob_body
ref_body b d = rw slice_ref-eq-read (elim (Bool-cases (b == 0)) [
  | inl z ↦ rw z
  | inr z ↦ elim (Bool-cases (b == 255)) [
    | inl w ↦ rw (z, w)
    | inr w ↦ elim (Bool-cases (b == 254)) [
      | inl l ↦ rw (z, w, l) (long_body d)
      | inr l ↦ rw (z, w, l) (unfold ◌>>=◌ return in refl)
    ]
  ]
])
  where
    long_body :
        (d : DataInputX)
        → ((read_int32 >>= λ n. return (i64_of_i32 n)) >>= λ n. read n) d
          ≡ (read_int32 >>= λ n. read (i64_of_i32 n)) d
    long_body d =
        unfold ◌>>=◌ return in
        then_with_assoc (read_int32 d) (λ n e. ok (i64_of_i32 n, e)) (λ n. read n)

-- On every buffer and offset ReadBlobRef and ReadBlob have the same outcome: the same bytes and
-- offset, the same error, or a panic.
pub read_blob_ref-eq-read_blob : (d : DataInputX) → read_blob_ref d ≡ read_blob d
unfolding read_blob_ref read_blob ◌>>=◌
read_blob_ref-eq-read_blob d = ap (then_with (read_byte d)) (fun_ext (λ b. fun_ext (ref_body b)))
