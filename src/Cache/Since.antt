-- ===== src/Cache/Since.antt =====
-- What a ring buffer of internal/core/cache holds of the writes since a position.
use scouter_server_go.Common.{
  ℕ, suc, ◌+◌, ◌-◌, ◌≤◌, ◌<◌, ◌≡◌, refl, ap, sym, ◌∙◌, ◌⊎◌, inl, inr, List, [], ◌∷◌, ◌++◌,
  append-nil, append_assoc, length, length-append, length-drop, take, drop, arith, lt_or_le,
}
use scouter_server_go.Cache.Ring.{
  set_elem, length-set_elem, take-set_elem, take-drop-set_elem, drop-set_elem, take_all, drop-suc,
  drop-append_le, oldest_first, oldest_first-turned, next_index, next_loop,
}

module _ {ℓ} {A : Type ℓ} where
  -- What the cells hold of `xs`, written from `from` in the round `start` on.
  pub data Since (size from start : ℕ) (xs cells : List A) (index loop : ℕ) : Type ℓ where
    same_round :
        loop ≡ start
        → index ≡ from + length xs
        → take (length xs) (drop from cells) ≡ xs
        → Since size from start xs cells index loop
    next_round :
        loop ≡ start + 1
        → index + size ≡ from + length xs
        → index < from
        → drop from cells ++ take index cells ≡ xs
        → Since size from start xs cells index loop
    lapped :
        size ≤ length xs
        → oldest_first index cells ≡ drop (length xs - size) xs
        → ((loop ≡ start + 1) × (from ≤ index)) ⊎ (start + 2 ≤ loop)
        → Since size from start xs cells index loop

  pub Since-empty :
      (size from start : ℕ) (cells : List A) → Since size from start [] cells from start
  Since-empty size from start cells = same_round refl (omega arith) refl

  module _ (size from start : ℕ) (room : from < size) (x : A) (xs cells : List A) (index loop : ℕ)
      (inside : index < size) (full : length cells ≡ size) where
    snoc : List A
    snoc = xs ++ (x ∷ [])

    written : List A
    written = set_elem index x cells

    length-snoc : length snoc ≡ suc (length xs)
    unfolding snoc
    length-snoc = omega (arith, length-append xs (x ∷ []))

    length-written : length written ≡ size
    unfolding written
    length-written = length-set_elem index x cells ∙ full

    -- A write behind `from`, in the same round.
    same-written :
        index ≡ from + length xs
        → take (length xs) (drop from cells) ≡ xs
        → take (length snoc) (drop from written) ≡ snoc
    unfolding written snoc
    same-written e t = rw length-snoc (
        take-drop-set_elem from (length xs) index x cells e (omega arith)
        ∙ ap (λ y. y ++ (x ∷ [])) t)

    -- A write at the end of the cells completes what is behind `from`.
    same-end :
        size ≤ index + 1
        → index ≡ from + length xs
        → take (length xs) (drop from cells) ≡ xs
        → drop from written ≡ snoc
    same-end h e t =
        sym (
          take_all (length snoc) (drop from written)
            (omega (arith, length-snoc, length-drop from written, length-written)))
        ∙ same-written e t

    next-written :
        index < from
        → drop from cells ++ take index cells ≡ xs
        → drop from written ++ take (suc index) written ≡ snoc
    unfolding written snoc
    next-written b t =
        ap (λ y. y ++ take (suc index) (set_elem index x cells))
          (drop-set_elem index from x cells b)
        ∙ ap (λ y. drop from cells ++ y) (take-set_elem index x cells (omega arith))
        ∙ sym (append_assoc (drop from cells) (take index cells) (x ∷ []))
        ∙ ap (λ y. y ++ (x ∷ [])) t

    lapped-written :
        (next : ℕ)
        → (next ≡ suc index) ⊎ ((size ≡ suc index) × (next ≡ 0))
        → size ≤ length xs
        → oldest_first index cells ≡ drop (length xs - size) xs
        → oldest_first next written ≡ drop (length snoc - size) snoc
    unfolding snoc written
    lapped-written next h b t =
        let more : length snoc - size ≡ suc (length xs - size) = omega (arith, length-snoc) in
        oldest_first-turned size index next x cells inside full h
        ∙ ap (λ y. drop 1 y ++ (x ∷ [])) t
        ∙ ap (λ y. y ++ (x ∷ [])) (sym (drop-suc (length xs - size) xs))
        ∙ sym (drop-append_le (suc (length xs - size)) xs (x ∷ []) (omega arith))
        ∙ ap (λ n. drop n snoc) (sym more)

    drop-none : length snoc ≡ size → drop (length snoc - size) snoc ≡ snoc
    drop-none h = let none_left : length snoc - size ≡ 0 = omega arith in rw none_left refl

    -- One more write.
    pub Since-set_elem :
        Since size from start xs cells index loop
        → Since size from start
            (xs ++ (x ∷ []))
            (set_elem index x cells)
            (next_index size index)
            (next_loop size index loop)
    unfolding written snoc
    Since-set_elem s = elim (lt_or_le (index + 1) size) [
      | inl h ↦
          let i : next_index size index ≡ suc index = ground arith in
          let l : next_loop size index loop ≡ loop = ground arith in rw (i, l) (before h s)
      | inr h ↦
          let i : next_index size index ≡ 0 = ground arith in
          let l : next_loop size index loop ≡ suc loop = ground arith in rw (i, l) (after h s)
    ]
      where
        before :
            index + 1 < size
            → Since size from start xs cells index loop
            → Since size from start (xs ++ (x ∷ [])) (set_elem index x cells) (suc index) loop
        before h (same_round l e t) = same_round l (omega (arith, length-snoc)) (same-written e t)
        before h (next_round l e b t) = elim (lt_or_le (suc index) from) [
          | inl more ↦ next_round l (omega (arith, length-snoc)) more (next-written b t)
          | inr done ↦
              let e' : from ≡ suc index = omega arith in
              lapped (omega (arith, length-snoc))
                (ap (λ n. drop n written ++ take (suc index) written) (sym e')
                  ∙ next-written b t
                  ∙ sym (drop-none (omega (arith, length-snoc))))
                (inl (l, omega arith))
        ]
        before h (lapped b t (inl (l, c))) =
            lapped (omega (arith, length-snoc)) (lapped-written (suc index) (inl refl) b t)
              (inl (l, omega arith))
        before h (lapped b t (inr l)) =
            lapped (omega (arith, length-snoc)) (lapped-written (suc index) (inl refl) b t) (inr l)

        after :
            size ≤ index + 1
            → Since size from start xs cells index loop
            → Since size from start (xs ++ (x ∷ [])) (set_elem index x cells) 0 (suc loop)
        after h (same_round l e t) = elim (lt_or_le 0 from) [
          | inl more ↦
              next_round (omega arith) (omega (arith, length-snoc)) more
                (append-nil (drop from written) ∙ same-end h e t)
          | inr done ↦
              let e' : from ≡ 0 = omega arith in
              lapped (omega (arith, length-snoc))
                (append-nil written
                  ∙ ap (λ n. drop n written) (sym e')
                  ∙ same-end h e t
                  ∙ sym (drop-none (omega (arith, length-snoc))))
                (inl (omega arith, omega arith))
        ]
        after h (next_round l e b t) = absurd (omega arith)
        after h (lapped b t (inl (l, c))) =
            lapped (omega (arith, length-snoc)) (lapped-written 0 (inr (omega arith, refl)) b t)
              (inr (omega arith))
        after h (lapped b t (inr l)) =
            lapped (omega (arith, length-snoc)) (lapped-written 0 (inr (omega arith, refl)) b t)
              (inr (omega arith))
