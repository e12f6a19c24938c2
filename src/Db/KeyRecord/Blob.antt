-- ===== src/Db/KeyRecord/Blob.antt =====
-- The blob behind a key is found again, in the window of 128 bytes and beyond it.
use scouter_server_go.Common.{
  ◌⊎◌, ℕ, zero, suc, ◌+◌, ◌-◌, ◌≤◌, ◌<◌, ◌≡◌, refl, sym, ap, ◌∙◌, ◌==◌, true, false, List, [], ◌∷◌,
  ◌++◌, length, take, drop, arith, leb, ltb, if◌then◌else◌, inl, inr, length-drop, length-append,
  drop-drop, length-take, take_all, take-append_le, drop-append_le, split_at, take-append_length,
  lt_or_le,
}
use scouter_server_go.Db.Files.{File, ok, padded, slice, read_at}
use scouter_server_go.Db.KeyRecord.{blob_tail, window}

-- A stretch within what was found is the same in the buffer and in the file.
pub slice-padded :
    (w : ℕ) (ys : List ℕ) (lo m : ℕ)
    → lo + m ≤ length (take w ys)
    → slice lo m (padded w (take w ys)) ≡ slice lo m ys
unfolding padded
slice-padded w ys zero zero h = refl
slice-padded zero ys zero (suc m) h = absurd (omega arith)
slice-padded (suc w) [] zero (suc m) h = absurd (omega arith)
slice-padded (suc w) (y ∷ ys) zero (suc m) h = ap (◌∷◌ y) (slice-padded w ys zero m (omega arith))
slice-padded zero ys (suc lo) m h = absurd (omega arith)
slice-padded (suc w) [] (suc lo) m h = absurd (omega arith)
slice-padded (suc w) (y ∷ ys) (suc lo) m h = slice-padded w ys lo m (omega arith)

-- What is found is the window, or all that is left of the file.
pub length-found :
    (w : ℕ) (ys : List ℕ) → (length (take w ys) ≡ w) ⊎ (length (take w ys) ≡ length ys)
length-found w ys = elim (lt_or_le w (length ys)) [
  | inl h ↦ inl (length-take w ys (omega arith))
  | inr h ↦ inr (ap length (take_all w ys h))
]

-- The buffer of getRecordReadAt for what stands in the file from its position on, and the number of
-- bytes found.
abbrev pub window_at : ℕ → File → List ℕ
window_at pos raf = padded window (take window (drop pos raf.content))

abbrev pub found_at : ℕ → File → ℕ
found_at pos raf = length (take window (drop pos raf.content))

-- Behind a place, all of `b` and what follows it.
module _ (pos : ℕ) (raf : File) (off : ℕ) (v rest : List ℕ)
    (stands : drop (pos + off) raf.content ≡ v ++ rest) where
  here : drop off (drop pos raf.content) ≡ v ++ rest
  here = sym (drop-drop pos off raf.content) ∙ stands

  enough : length v ≤ length (drop pos raf.content) - off
  enough =
      omega (arith, ap length here, length-drop off (drop pos raf.content), length-append v rest)

  short_tail : off + length v ≤ found_at pos raf → slice off (length v) (window_at pos raf) ≡ v
  short_tail h =
      slice-padded window (drop pos raf.content) off (length v) h
      ∙ ap (take (length v)) here
      ∙ take-append_length v rest

  -- The part in the window, and the part that the second ReadAt finds.
  module _ (c : ℕ) (inside : off + c ≡ found_at pos raf) (long : c < length v) where
    head_part : slice off c (window_at pos raf) ≡ take c v
    head_part =
        slice-padded window (drop pos raf.content) off c (omega (arith, inside))
        ∙ ap (take c) here
        ∙ take-append_le c v rest (omega arith)

    more_part : slice (pos + (found_at pos raf)) (length v - c) raf.content ≡ drop c v
    more_part =
        let at : pos + found_at pos raf ≡ (pos + off) + c = omega (arith, inside) in
        let m : length v - c ≡ length (drop c v) = omega (arith, length-drop c v) in
        rw (at, m)
          (ap (take (length (drop c v))) (
              drop-drop (pos + off) c raf.content
              ∙ ap (drop c) stands
              ∙ drop-append_le c v rest (omega arith))
            ∙ take-append_length (drop c v) rest)

    long_tail : blob_tail pos (found_at pos raf) off (length v) (window_at pos raf) raf ≡ ok v
    unfolding blob_tail read_at
    long_tail =
        let a : leb (off + length v) (found_at pos raf) ≡ false = ground (arith, inside) in
        let same : (found_at pos raf) - off ≡ c = omega (arith, inside) in
        let b : (if ltb off (found_at pos raf) then (found_at pos raf) - off else 0) ≡ c =
          ground (arith, inside) in
        let d : ltb c (length v) ≡ true = ground arith in
        let e : (length (drop c v) == length v - c) ≡ true = ground (arith, length-drop c v) in
        rw (a, b, d, more_part, e, head_part) (ap ok (sym (split_at c v)))

  pub blob_tail_lem :
      off ≤ found_at pos raf
      → blob_tail pos (found_at pos raf) off (length v) (window_at pos raf) raf ≡ ok v
  unfolding blob_tail
  blob_tail_lem h = elim (lt_or_le (found_at pos raf) (off + length v)) [
    | inl p ↦ long_tail ((found_at pos raf) - off) (omega arith) (omega arith)
    | inr p ↦
        let a : leb (off + length v) (found_at pos raf) ≡ true = ground arith in
        rw (a, short_tail p) refl
  ]
