-- ===== src/Cache/AlertDelivery.antt =====
-- What a client gets from AlertCache of internal/core/cache/alert_cache.go when it asks again and again.
use mathlib.Core.Path.{subst}
use scouter_server_go.Common.{
  ℕ, pos, ◌+◌, ◌-◌, ◌≤◌, ◌<◌, ◌≡◌, refl, ap, sym, ◌∙◌, inl, inr, ltb, if◌then◌else◌, Option, some,
  List, [], ◌∷◌, ◌++◌, map, append-nil, append_assoc, length, take, drop, arith, lt→ltb, le→ltb,
  eq_or_ne, ◌⊎◌, ltb_int-pred, eq_int-pred, length-drop,
}
use scouter_server_go.Cache.Ring.{set_elem, length-set_elem, take_all, next_index, next_loop}
use scouter_server_go.Cache.Since.{
  Since, same_round, next_round, lapped, Since-empty, Since-set_elem,
}
use scouter_server_go.Cache.Alerts.{AlertCache, add_alert, collect, collect_from, get_since}
use scouter_server_go.Cache.AlertCells.{
  present, present-some, present-append, collect_lem, map-snoc, length-map-some,
}

pub record IsAlertCache (c : AlertCache) : Type 0 where
  pub cells : length c.buf ≡ c.size
  pub inside : c.index < c.size

add_alert-IsAlertCache :
    (a : Option (List ℕ)) (c : AlertCache) → IsAlertCache c → IsAlertCache (add_alert a c)
unfolding add_alert
add_alert-IsAlertCache a c v = record {
  cells = length-set_elem c.index a c.buf ∙ v.cells;
  inside = ground (arith, v.inside);
}

size-add_alert : (a : Option (List ℕ)) (c : AlertCache) → (add_alert a c).size ≡ c.size
unfolding add_alert
size-add_alert a c = refl

-- Alerts that are added one after another. None of them is nil.
unfoldable pub add_alerts : List (List ℕ) → AlertCache → AlertCache
add_alerts [] c = c
add_alerts (x ∷ xs) c = add_alerts xs (add_alert (some x) c)

-- One alert more.
add_alert-Since :
    (size from start : ℕ) (x : List ℕ) (ys : List (List ℕ)) (c : AlertCache)
    → from < size
    → c.size ≡ size
    → IsAlertCache c
    → Since size from start (map some ys) c.buf c.index c.loop
    → Since size from start
        (map some (ys ++ (x ∷ [])))
        (add_alert (some x) c).buf
        (add_alert (some x) c).index
        (add_alert (some x) c).loop
unfolding add_alert
add_alert-Since size from start x ys c room e v s = rw (map-snoc ys x) (
    subst
      (λ n.
        Since size from start (map some ys ++ (some x ∷ [])) (set_elem c.index (some x) c.buf)
          (next_index n c.index) (next_loop n c.index c.loop))
      (sym e)
      (Since-set_elem size from start room (some x) (map some ys) c.buf c.index c.loop
        (omega (arith, v.inside)) (v.cells ∙ e) s))

-- What the cache holds of the alerts that were added since `c`.
add_alerts-Since :
    (size from start : ℕ) (xs ys : List (List ℕ)) (c : AlertCache)
    → from < size
    → c.size ≡ size
    → IsAlertCache c
    → Since size from start (map some ys) c.buf c.index c.loop
    → Since size from start
        (map some (ys ++ xs))
        (add_alerts xs c).buf
        (add_alerts xs c).index
        (add_alerts xs c).loop
unfolding add_alerts
add_alerts-Since size from start [] ys c room e v s = rw append-nil s
add_alerts-Since size from start (x ∷ xs) ys c room e v s =
    subst
      (λ zs.
        Since size from start (map some zs) (add_alerts xs (add_alert (some x) c)).buf
          (add_alerts xs (add_alert (some x) c)).index (add_alerts xs (add_alert (some x) c)).loop)
      (append_assoc ys (x ∷ []) xs)
      (add_alerts-Since size from start xs (ys ++ (x ∷ [])) (add_alert (some x) c) room
        (size-add_alert (some x) c ∙ e) (add_alert-IsAlertCache (some x) c v)
        (add_alert-Since size from start x ys c room e v s))

add_alerts-IsAlertCache :
    (xs : List (List ℕ)) (c : AlertCache)
    → IsAlertCache c
    → IsAlertCache (add_alerts xs c) × ((add_alerts xs c).size ≡ c.size)
unfolding add_alerts
add_alerts-IsAlertCache [] c v = (v, refl)
add_alerts-IsAlertCache (x ∷ xs) c v =
    let (w, e) =
      add_alerts-IsAlertCache xs (add_alert (some x) c) (add_alert-IsAlertCache (some x) c v) in
    (w, e ∙ size-add_alert (some x) c)

module _ (from start : ℕ) (c : AlertCache) where
  get_since-same :
      c.loop ≡ start
      → from ≤ c.index
      → get_since (pos start) (pos from) c
        ≡ some (collect c.buf from (c.index - from), c.loop, c.index)
  unfolding get_since collect_from collect
  get_since-same l h = elim (eq_or_ne from c.index) [
    | inl e ↦
        let none_new : c.index - from ≡ 0 = omega arith in
        rw (ltb_int-pred start c.loop, eq_int-pred start c.loop, none_new, get_since) (ground arith)
    | inr n ↦ rw (ltb_int-pred start c.loop, eq_int-pred start c.loop, get_since) (ground arith)
  ]

  get_since-next :
      c.loop ≡ start + 1
      → c.index < from
      → get_since (pos start) (pos from) c
        ≡ some (collect c.buf from (c.size - from) ++ collect c.buf 0 c.index, c.loop, c.index)
  unfolding get_since collect_from
  get_since-next l h =
      rw (ltb_int-pred start c.loop, eq_int-pred start c.loop, get_since) (ground arith)

  get_since-lapped :
      ((c.loop ≡ start + 1) × (from ≤ c.index)) ⊎ (start + 2 ≤ c.loop)
      → get_since (pos start) (pos from) c ≡ some ([], c.loop, c.index)
  unfolding get_since collect_from
  get_since-lapped l =
      rw (ltb_int-pred start c.loop, eq_int-pred start c.loop, get_since) (ground arith)

-- The stretch from `from` to the end, and the one from the start, give what stands in both.
collect-turned :
    (xs : List (List ℕ)) (from : ℕ) (c : AlertCache)
    → IsAlertCache c
    → c.index < from
    → from < c.size
    → drop from c.buf ++ take c.index c.buf ≡ map some xs
    → collect c.buf from (c.size - from) ++ collect c.buf 0 c.index ≡ xs
collect-turned xs from c v b room t =
    ap (λ r. r ++ collect c.buf 0 c.index)
      (collect_lem c.buf from (c.size - from) (omega (arith, v.cells))
        ∙ ap present (
            take_all (c.size - from) (drop from c.buf)
              (omega (arith, v.cells, length-drop from c.buf))))
    ∙ ap (λ r. present (drop from c.buf) ++ r)
        (collect_lem c.buf 0 c.index (omega (arith, v.cells, v.inside)))
    ∙ sym (present-append (drop from c.buf) (take c.index c.buf))
    ∙ ap present t
    ∙ present-some xs

collect-straight :
    (xs : List (List ℕ)) (from : ℕ) (c : AlertCache)
    → IsAlertCache c
    → c.index ≡ from + length xs
    → take (length xs) (drop from c.buf) ≡ map some xs
    → collect c.buf from (c.index - from) ≡ xs
collect-straight xs from c v e t =
    let n : c.index - from ≡ length xs = omega arith in
    rw n (
      collect_lem c.buf from (length xs) (omega (arith, v.cells, v.inside))
      ∙ ap present t
      ∙ present-some xs)

-- What `get_since` answers a client that was at a position, by what was added since.
get_since-Since :
    (xs : List (List ℕ)) (from start : ℕ) (c : AlertCache)
    → IsAlertCache c
    → from < c.size
    → Since c.size from start (map some xs) c.buf c.index c.loop
    → get_since (pos start) (pos from) c
      ≡ some (if ltb (length xs) c.size then xs else [], c.loop, c.index)
get_since-Since xs from start c v room (same_round l e t) =
    let count = length-map-some xs in
    rw (lt→ltb (length xs) c.size (omega (arith, count, v.inside))) (
      get_since-same from start c l (omega arith)
      ∙ ap (λ r. some (r, c.loop, c.index))
          (collect-straight xs from c v (omega arith)
            (ap (λ n. take n (drop from c.buf)) (sym count) ∙ t)))
get_since-Since xs from start c v room (next_round l e b t) =
    rw (lt→ltb (length xs) c.size (omega (arith, length-map-some xs))) (
      get_since-next from start c l b
      ∙ ap (λ r. some (r, c.loop, c.index)) (collect-turned xs from c v b room t))
get_since-Since xs from start c v room (lapped b t l) =
    rw (le→ltb (length xs) c.size (omega (arith, length-map-some xs)))
      (get_since-lapped from start c l)

-- A client that asks with the position that the cache last gave it gets the alerts that were added
-- since, in their order, as long as these are fewer than the cache has cells; with as many or more
-- it gets none. In both cases it gets the new position.
pub get_since-add_alerts :
    (xs : List (List ℕ)) (c : AlertCache)
    → IsAlertCache c
    → (let now = add_alerts xs c in
        get_since (pos c.loop) (pos c.index) now
        ≡ some (if ltb (length xs) c.size then xs else [], now.loop, now.index))
get_since-add_alerts xs c v =
    let now = add_alerts xs c in
    let (w, e) = add_alerts-IsAlertCache xs c v in
    let s =
      add_alerts-Since c.size c.index c.loop xs [] c v.inside refl v
        (Since-empty c.size c.index c.loop c.buf) in
    subst
      (λ n.
        get_since (pos c.loop) (pos c.index) now
        ≡ some (if ltb (length xs) n then xs else [], now.loop, now.index))
      e
      (get_since-Since xs c.index c.loop now w (omega (arith, e, v.inside))
        (subst (λ n. Since n c.index c.loop (map some xs) now.buf now.index now.loop) (sym e) s))
