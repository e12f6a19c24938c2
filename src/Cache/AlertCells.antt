-- ===== src/Cache/AlertCells.antt =====
-- The cells that the loops of AlertCache of internal/core/cache/alert_cache.go go over.
use scouter_server_go.Common.{
  ℕ, elem_at, zero, suc, ◌+◌, ◌≤◌, ◌≡◌, refl, ap, sym, ◌∙◌, Option, none, some, List, [], ◌∷◌, ◌++◌,
  map, length, take, drop, get_elem?, arith,
}
use scouter_server_go.Cache.Alerts.{collect}

-- The loop over a stretch of cells.
unfoldable pub present : List (Option (List ℕ)) → List (List ℕ)
present [] = []
present (none ∷ bs) = present bs
present (some b ∷ bs) = b ∷ present bs

pub present-some : (xs : List (List ℕ)) → present (map some xs) ≡ xs
unfolding present
present-some [] = refl
present-some (x ∷ xs) = ap (◌∷◌ x) (present-some xs)

pub present-append :
    (bs cs : List (Option (List ℕ))) → present (bs ++ cs) ≡ present bs ++ present cs
unfolding present
present-append [] cs = refl
present-append (none ∷ bs) cs = present-append bs cs
present-append (some b ∷ bs) cs = ap (◌∷◌ b) (present-append bs cs)

pub collect-cell :
    (buf : List (Option (List ℕ))) (i n : ℕ) (b : Option (List ℕ))
    → get_elem? buf i ≡ some b
    → collect buf i (suc n) ≡ present (b ∷ []) ++ collect buf (suc i) n
unfolding collect present
collect-cell buf i n none e = rw (e, collect) refl
collect-cell buf i n (some b) e = rw (e, collect) refl

pub collect_lem :
    (buf : List (Option (List ℕ))) (i n : ℕ)
    → n + i ≤ length buf
    → collect buf i n ≡ present (take n (drop i buf))
unfolding collect present
collect_lem buf i zero h = refl
collect_lem buf i (suc n) h =
    let (b, e, d) = elem_at buf i (omega arith) in
    collect-cell buf i n b e
    ∙ ap (λ r. present (b ∷ []) ++ r) (collect_lem buf (suc i) n (omega arith))
    ∙ sym (present-append (b ∷ []) (take n (drop (suc i) buf)))
    ∙ ap (λ r. present (take (suc n) r)) (sym d)

pub map-snoc :
    (xs : List (List ℕ)) (x : List ℕ) → map some (xs ++ (x ∷ [])) ≡ map some xs ++ (some x ∷ [])
map-snoc [] x = refl
map-snoc (y ∷ xs) x = ap (◌∷◌ (some y)) (map-snoc xs x)

pub length-map-some : (xs : List (List ℕ)) → length (map some xs) ≡ length xs
length-map-some [] = refl
length-map-some (x ∷ xs) = omega (arith, length-map-some xs)
