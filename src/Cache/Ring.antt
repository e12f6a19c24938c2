-- ===== src/Cache/Ring.antt =====
-- Ring buffers: what was written since a position. AlertCache and XLogCache of internal/core/cache
-- keep one, with the place of the next write and the number of times that the writes began again.
use scouter_server_go.Common.{
  ℕ, append-nil, ◌⊎◌, inl, inr, zero, suc, ◌+◌, ◌≤◌, ◌<◌, ◌≡◌, refl, ap, sym, ◌∙◌, leb,
  if◌then◌else◌, List, [], ◌∷◌, ◌++◌, append_assoc, length, length-drop, take, drop, arith,
}

-- The place after `index`, and the number of rounds after a write there.
abbrev pub next_index : ℕ → ℕ → ℕ
next_index size index = if leb size (index + 1) then 0 else index + 1

abbrev pub next_loop : ℕ → ℕ → ℕ → ℕ
next_loop size index loop = if leb size (index + 1) then loop + 1 else loop

module _ {ℓ} {A : Type ℓ} where
  unfoldable pub set_elem : ℕ → A → List A → List A
  set_elem i x [] = []
  set_elem zero x (y ∷ ys) = x ∷ ys
  set_elem (suc i) x (y ∷ ys) = y ∷ set_elem i x ys

  pub length-set_elem : (i : ℕ) (x : A) (xs : List A) → length (set_elem i x xs) ≡ length xs
  unfolding set_elem
  length-set_elem i x [] = refl
  length-set_elem zero x (y ∷ ys) = refl
  length-set_elem (suc i) x (y ∷ ys) = omega (arith, length-set_elem i x ys)

  pub take-set_elem :
      (n : ℕ) (x : A) (xs : List A)
      → n < length xs
      → take (suc n) (set_elem n x xs) ≡ take n xs ++ (x ∷ [])
  unfolding set_elem
  take-set_elem n x [] h = absurd (omega arith)
  take-set_elem zero x (y ∷ ys) h = refl
  take-set_elem (suc n) x (y ∷ ys) h = ap (◌∷◌ y) (take-set_elem n x ys (omega arith))

  pub take-drop-set_elem :
      (i n k : ℕ) (x : A) (xs : List A)
      → k ≡ i + n
      → k < length xs
      → take (suc n) (drop i (set_elem k x xs)) ≡ take n (drop i xs) ++ (x ∷ [])
  unfolding set_elem
  take-drop-set_elem i n k x [] e h = absurd (omega arith)
  take-drop-set_elem zero n k x (y ∷ ys) e h =
      let same : k ≡ n = omega arith in rw same (take-set_elem n x (y ∷ ys) (omega arith))
  take-drop-set_elem (suc i) n zero x (y ∷ ys) e h = absurd (omega arith)
  take-drop-set_elem (suc i) n (suc k) x (y ∷ ys) e h =
      take-drop-set_elem i n k x ys (omega arith) (omega arith)

  pub drop-set_elem : (n i : ℕ) (x : A) (xs : List A) → n < i → drop i (set_elem n x xs) ≡ drop i xs
  unfolding set_elem
  drop-set_elem n zero x xs h = absurd (omega arith)
  drop-set_elem n (suc i) x [] h = refl
  drop-set_elem zero (suc i) x (y ∷ ys) h = refl
  drop-set_elem (suc n) (suc i) x (y ∷ ys) h = drop-set_elem n i x ys (omega arith)

  pub take_all : (n : ℕ) (xs : List A) → length xs ≤ n → take n xs ≡ xs
  take_all zero [] h = refl
  take_all (suc n) [] h = refl
  take_all zero (x ∷ xs) h = absurd (omega arith)
  take_all (suc n) (x ∷ xs) h = ap (◌∷◌ x) (take_all n xs (omega arith))

  pub drop_all : (n : ℕ) (xs : List A) → length xs ≤ n → drop n xs ≡ []
  drop_all zero [] h = refl
  drop_all (suc n) [] h = refl
  drop_all zero (x ∷ xs) h = absurd (omega arith)
  drop_all (suc n) (x ∷ xs) h = drop_all n xs (omega arith)

  -- Dropping one more is dropping the first of what is left.
  pub drop-suc : (n : ℕ) (xs : List A) → drop (suc n) xs ≡ drop 1 (drop n xs)
  drop-suc zero [] = refl
  drop-suc zero (x ∷ xs) = refl
  drop-suc (suc n) [] = refl
  drop-suc (suc n) (x ∷ xs) = drop-suc n xs

  pub drop-append_le :
      (n : ℕ) (xs ys : List A) → n ≤ length xs → drop n (xs ++ ys) ≡ drop n xs ++ ys
  drop-append_le zero xs ys h = refl
  drop-append_le (suc n) [] ys h = absurd (omega arith)
  drop-append_le (suc n) (x ∷ xs) ys h = drop-append_le n xs ys (omega arith)

  -- The cells from the oldest to the newest, once all of them are written.
  abbrev pub oldest_first : ℕ → List A → List A
  oldest_first index cells = drop index cells ++ take index cells

  pub oldest_first-set_elem :
      (index : ℕ) (x : A) (cells : List A)
      → index < length cells
      → oldest_first (suc index) (set_elem index x cells)
        ≡ drop 1 (oldest_first index cells) ++ (x ∷ [])
  oldest_first-set_elem index x cells h =
      ap (λ t. drop (suc index) (set_elem index x cells) ++ t) (take-set_elem index x cells h)
      ∙ ap (λ t. t ++ (take index cells ++ (x ∷ [])))
          (drop-set_elem index (suc index) x cells (omega arith) ∙ drop-suc index cells)
      ∙ sym (append_assoc (drop 1 (drop index cells)) (take index cells) (x ∷ []))
      ∙ ap (λ t. t ++ (x ∷ []))
          (sym (
            drop-append_le 1 (drop index cells) (take index cells)
              (omega (arith, length-drop index cells))))

  -- The cells turned by one write, also where the writes begin again.
  pub oldest_first-turned :
      (size index next : ℕ) (x : A) (cells : List A)
      → index < size
      → length cells ≡ size
      → (next ≡ suc index) ⊎ ((size ≡ suc index) × (next ≡ 0))
      → oldest_first next (set_elem index x cells) ≡ drop 1 (oldest_first index cells) ++ (x ∷ [])
  oldest_first-turned size index next x cells inside full (inl e) =
      rw e (oldest_first-set_elem index x cells (omega arith))
  oldest_first-turned size index next x cells inside full (inr (h, e)) =
      let written = set_elem index x cells in
      let length-written = length-set_elem index x cells in
      rw e (
        append-nil written
        ∙ sym (take_all (suc index) written (omega (arith, length-written)))
        ∙ ap (λ y. y ++ take (suc index) written)
            (sym (drop_all (suc index) written (omega (arith, length-written))))
        ∙ oldest_first-set_elem index x cells (omega arith))
