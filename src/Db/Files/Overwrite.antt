-- ===== src/Db/Files/Overwrite.antt =====
-- What a write over a stretch of bytes leaves to be read.
use scouter_server_go.Common.{
  ℕ, zero, suc, ◌+◌, ◌-◌, ◌≤◌, ◌≡◌, refl, sym, ap, ◌∙◌, List, [], ◌∷◌, ◌++◌, length, take, drop,
  arith, length-append, length-drop, take-append_length, drop-append_length, drop-drop,
}
use scouter_server_go.Db.Files.{padded, slice, overwrite}
use native.Mathlib.Nat.{suc-add, zero-add}

pub length-padded : (n : ℕ) (xs : List ℕ) → length (padded n xs) ≡ n
unfolding padded
length-padded zero xs = refl
length-padded (suc n) [] = ap suc (length-padded n [])
length-padded (suc n) (x ∷ xs) = ap suc (length-padded n xs)

pub length-overwrite :
    (q : ℕ) (b xs : List ℕ) → q + length b ≤ length xs → length (overwrite q b xs) ≡ length xs
unfolding overwrite
length-overwrite q [] xs h = refl
length-overwrite q (x ∷ b) xs h =
    let rest = drop (q + length (x ∷ b)) xs in
    length-append (padded q xs) ((x ∷ b) ++ rest)
    ∙ ap (◌+◌ (length (padded q xs))) (length-append (x ∷ b) rest)
    ∙ omega (arith, length-padded q xs, length-drop (q + length (x ∷ b)) xs)

overwrite-zero : (b xs : List ℕ) → overwrite 0 b xs ≡ b ++ drop (length b) xs
unfolding overwrite padded
overwrite-zero [] xs = refl
overwrite-zero (x ∷ b) xs = rw zero-add refl

overwrite-cons : (q x : ℕ) (b xs : List ℕ) → overwrite (suc q) b (x ∷ xs) ≡ x ∷ overwrite q b xs
unfolding overwrite padded
overwrite-cons q x [] xs = refl
overwrite-cons q x (y ∷ b) xs = rw suc-add refl

pub take-overwrite :
    (n q : ℕ) (b xs : List ℕ) → n ≤ q → q ≤ length xs → take n (overwrite q b xs) ≡ take n xs
take-overwrite zero q b xs h k = refl
take-overwrite (suc n) zero b xs h k = absurd (omega arith)
take-overwrite (suc n) (suc q) b [] h k = absurd (omega arith)
take-overwrite (suc n) (suc q) b (x ∷ xs) h k =
    rw (overwrite-cons q x b xs) (ap (◌∷◌ x) (take-overwrite n q b xs (omega arith) (omega arith)))

pub drop-overwrite :
    (lo q : ℕ) (b xs : List ℕ)
    → lo ≤ q
    → q ≤ length xs
    → drop lo (overwrite q b xs) ≡ overwrite (q - lo) b (drop lo xs)
drop-overwrite zero q b xs h k = let e : q - 0 ≡ q = omega arith in rw e refl
drop-overwrite (suc lo) zero b xs h k = absurd (omega arith)
drop-overwrite (suc lo) (suc q) b [] h k = absurd (omega arith)
drop-overwrite (suc lo) (suc q) b (x ∷ xs) h k =
    let e : suc q - suc lo ≡ q - lo = omega arith in
    rw (overwrite-cons q x b xs, e) (drop-overwrite lo q b xs (omega arith) (omega arith))

pub drop-overwrite_behind :
    (q lo : ℕ) (b xs : List ℕ)
    → q + length b ≤ lo
    → q ≤ length xs
    → drop lo (overwrite q b xs) ≡ drop lo xs
drop-overwrite_behind zero lo b xs h k =
    let e : lo ≡ length b + (lo - length b) = omega arith in
    rw e (
      ap (drop (length b + (lo - length b))) (overwrite-zero b xs)
      ∙ drop-drop (length b) (lo - length b) (b ++ drop (length b) xs)
      ∙ ap (drop (lo - length b)) (drop-append_length b (drop (length b) xs))
      ∙ sym (drop-drop (length b) (lo - length b) xs))
drop-overwrite_behind (suc q) lo b [] h k = absurd (omega arith)
drop-overwrite_behind (suc q) zero b (x ∷ xs) h k = absurd (omega arith)
drop-overwrite_behind (suc q) (suc lo) b (x ∷ xs) h k =
    rw (overwrite-cons q x b xs) (drop-overwrite_behind q lo b xs (omega arith) (omega arith))

-- The bytes written are read back, and those apart from them are as before.
module _ (q : ℕ) (b xs : List ℕ) (fits : q + length b ≤ length xs) where
  pub slice-overwrite_self : slice q (length b) (overwrite q b xs) ≡ b
  slice-overwrite_self =
      let e : q - q ≡ 0 = omega arith in
      rw
        (drop-overwrite q q b xs (omega arith) (omega arith), e, overwrite-zero, take-append_length)
        refl

  pub slice-overwrite_before :
      (lo n : ℕ) → lo + n ≤ q → slice lo n (overwrite q b xs) ≡ slice lo n xs
  slice-overwrite_before lo n h =
      rw (drop-overwrite lo q b xs (omega arith) (omega arith))
        (take-overwrite n (q - lo) b (drop lo xs) (omega arith) (omega (arith, length-drop lo xs)))

  pub slice-overwrite_behind :
      (lo n : ℕ) → q + length b ≤ lo → slice lo n (overwrite q b xs) ≡ slice lo n xs
  slice-overwrite_behind lo n h = ap (take n) (drop-overwrite_behind q lo b xs h (omega arith))

pub overwrite-append : (b a xs : List ℕ) → overwrite (length a) b (a ++ xs) ≡ a ++ overwrite 0 b xs
overwrite-append b [] xs = refl
overwrite-append b (x ∷ a) xs =
    overwrite-cons (length a) x b (a ++ xs) ∙ ap (◌∷◌ x) (overwrite-append b a xs)
