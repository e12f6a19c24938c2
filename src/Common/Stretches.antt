-- ===== src/Common/Stretches.antt =====
-- Stretches of lists: their split at a place, and what holds of all elements of them.
use Prim.Native.Nat.{ℕ, zero, suc, ◌-◌, ◌≤◌}
use mathlib.Core.Path.{◌≡◌, refl, sym, ap}
use mathlib.Core.List.{List, [], ◌∷◌, ◌++◌}
use native.Mathlib.Omega.{arith}
use scouter_server_go.Common.Lists.{take, drop, All, length}

module _ {ℓ} {A : Type ℓ} where
  pub All-append {κ} : (P : A → Type κ) (xs ys : List A) → All P xs → All P ys → All P (xs ++ ys)
  All-append P [] ys a b = b
  All-append P (x ∷ xs) ys a b = (a.0, All-append P xs ys a.1 b)

  pub All-drop {κ} : (P : A → Type κ) (n : ℕ) (xs : List A) → All P xs → All P (drop n xs)
  All-drop P zero xs a = a
  All-drop P (suc n) [] a = tt
  All-drop P (suc n) (x ∷ xs) a = All-drop P n xs a.1

  pub All-take {κ} : (P : A → Type κ) (n : ℕ) (xs : List A) → All P xs → All P (take n xs)
  All-take P zero xs a = tt
  All-take P (suc n) [] a = tt
  All-take P (suc n) (x ∷ xs) a = (a.0, All-take P n xs a.1)

  pub All-map {κ} : (P Q : A → Type κ) (xs : List A) → ((x : A) → P x → Q x) → All P xs → All Q xs
  All-map P Q [] f a = tt
  All-map P Q (x ∷ xs) f a = (f x a.0, All-map P Q xs f a.1)

  take-nil : (n : ℕ) → take {A = A} n [] ≡ []
  take-nil zero = refl
  take-nil (suc n) = refl

  pub split_at : (n : ℕ) (xs : List A) → xs ≡ take n xs ++ drop n xs
  split_at zero xs = refl
  split_at (suc n) [] = refl
  split_at (suc n) (x ∷ xs) = ap (◌∷◌ x) (split_at n xs)

  pub take-split :
      (a b : ℕ) (xs : List A) → a ≤ b → take b xs ≡ take a xs ++ take (b - a) (drop a xs)
  take-split zero b xs h = let same : b - 0 ≡ b = omega arith in rw same refl
  take-split (suc a) zero xs h = absurd (omega arith)
  take-split (suc a) (suc b) [] h = sym (take-nil (suc b - suc a))
  take-split (suc a) (suc b) (x ∷ xs) h =
      let same : suc b - suc a ≡ b - a = omega arith in
      rw same (ap (◌∷◌ x) (take-split a b xs (omega arith)))

  pub drop-split :
      (a b : ℕ) (xs : List A) → a ≤ b → drop a xs ≡ take (b - a) (drop a xs) ++ drop b xs
  drop-split zero b xs h = let same : b - 0 ≡ b = omega arith in rw same (split_at b xs)
  drop-split (suc a) zero xs h = absurd (omega arith)
  drop-split (suc a) (suc b) [] h = sym (ap (λ y. y ++ []) (take-nil (suc b - suc a)))
  drop-split (suc a) (suc b) (x ∷ xs) h =
      let same : suc b - suc a ≡ b - a = omega arith in rw same (drop-split a b xs (omega arith))

  pub length-take : (n : ℕ) (xs : List A) → n ≤ length xs → length (take n xs) ≡ n
  length-take zero xs h = refl
  length-take (suc n) [] h = absurd (omega arith)
  length-take (suc n) (x ∷ xs) h = ap suc (length-take n xs (omega arith))

  pub take_all : (n : ℕ) (xs : List A) → length xs ≤ n → take n xs ≡ xs
  take_all zero [] h = refl
  take_all zero (x ∷ xs) h = absurd (omega arith)
  take_all (suc n) [] h = refl
  take_all (suc n) (x ∷ xs) h = ap (◌∷◌ x) (take_all n xs (omega arith))

  pub take-append_le : (n : ℕ) (xs ys : List A) → n ≤ length xs → take n (xs ++ ys) ≡ take n xs
  take-append_le zero xs ys h = refl
  take-append_le (suc n) [] ys h = absurd (omega arith)
  take-append_le (suc n) (x ∷ xs) ys h = ap (◌∷◌ x) (take-append_le n xs ys (omega arith))

  pub drop-append_le :
      (n : ℕ) (xs ys : List A) → n ≤ length xs → drop n (xs ++ ys) ≡ drop n xs ++ ys
  drop-append_le zero xs ys h = refl
  drop-append_le (suc n) [] ys h = absurd (omega arith)
  drop-append_le (suc n) (x ∷ xs) ys h = drop-append_le n xs ys (omega arith)
