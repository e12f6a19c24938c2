-- ===== src/Cache/XlogRequests.antt =====
-- A request to XLogCache of internal/core/cache/xlog_cache.go for some objects finds over the index
-- what a scan would find.
use mathlib.Core.Path.{subst}
use scouter_server_go.Common.{
  All-append, All-drop, All-take, All-map, take-split, drop-split, ℕ, ℤ, pos, eq_int-pred, ◌+◌, ◌-◌,
  ◌≤◌, ◌<◌, ◌≡◌, ◌⊎◌, refl, ap, sym, ◌∙◌, inl, inr, Bool, true, false, some, List, [], ◌∷◌, ◌++◌,
  append_assoc, length, length-drop, take, drop, All, arith,
}
use scouter_server_go.Cache.Ring.{oldest_first, take_all}
use scouter_server_go.Cache.Since.{Since, same_round, next_round, lapped, Since-empty}
use scouter_server_go.Cache.Xlogs.{
  XlogEntry, XlogCache, in_range, copy_places, copy_from_index, places_of, get_xlogs,
}
use scouter_server_go.Cache.XlogDelivery.{
  IsXlogCache, kept, put_xlogs, put_xlogs-IsXlogCache, put_xlogs-Since,
}
use scouter_server_go.Cache.XlogIndex.{enumerate, IsIndexed, length-enumerate}
use scouter_server_go.Cache.XlogReachable.{HasBytes, put_xlogs-both}
use scouter_server_go.Cache.XlogObjects.{
  of_object, select, StandsIn, Passes, Fails, entries_of, select-append, select-Fails,
  select-Passes, copy_places_lem, All-StandsIn, Between, All-Between, entries_of-append,
  entries_of-take,
}

module _ (from start : ℕ) (c : XlogCache) (v : IsXlogCache c) where
  r : ℕ → Bool
  r p = in_range (pos start) (pos from) c p

  pairs : List (ℕ × XlogEntry)
  pairs = enumerate 0 c.entries

  length-pairs : length pairs ≡ c.size
  unfolding pairs
  length-pairs = length-enumerate 0 c.entries ∙ v.cells

  same-in : (p : ℕ) → c.loop ≡ start → from ≤ p → p < c.index → r p ≡ true
  unfolding r in_range
  same-in p l a b = ground arith

  same-out : (p : ℕ) → c.loop ≡ start → (p < from) ⊎ (c.index ≤ p) → r p ≡ false
  unfolding r in_range
  same-out p l a = ground arith

  next-in : (p : ℕ) → c.loop ≡ start + 1 → (from ≤ p) ⊎ (p < c.index) → r p ≡ true
  unfolding r in_range
  next-in p l a = rw (eq_int-pred start c.loop, in_range) (ground arith)

  next-out : (p : ℕ) → c.loop ≡ start + 1 → c.index ≤ p → p < from → r p ≡ false
  unfolding r in_range
  next-out p l a b = rw (eq_int-pred start c.loop, in_range) (ground arith)

  lapped-in :
      (p : ℕ) → ((c.loop ≡ start + 1) × (from ≤ c.index)) ⊎ (start + 2 ≤ c.loop) → r p ≡ true
  unfolding r in_range
  lapped-in p l = rw (eq_int-pred start c.loop, in_range) (ground arith)

  -- Behind a place stands a stretch of known length.
  drop-stretch : (i : ℕ) → drop i pairs ≡ take (c.size - i) (drop i pairs)
  drop-stretch i =
      sym (take_all (c.size - i) (drop i pairs) (omega (arith, length-drop i pairs, length-pairs)))

  entries_of-drop : (i : ℕ) → entries_of (drop i pairs) ≡ drop i c.entries
  unfolding pairs
  entries_of-drop i =
      ap entries_of (drop-stretch i)
      ∙ entries_of-take 0 i (c.size - i) c.entries
      ∙ take_all (c.size - i) (drop i c.entries) (omega (arith, length-drop i c.entries, v.cells))

  behind : (i : ℕ) → i ≤ c.size → All (Between i c.size) (drop i pairs)
  unfolding pairs
  behind i h =
      subst (All (Between i c.size)) (sym (drop-stretch i))
        (All-Between i c.size 0 i (c.size - i) c.entries (omega arith) (omega arith))

  stretch : (i n : ℕ) → All (Between i (i + n)) (take n (drop i pairs))
  unfolding pairs
  stretch i n = All-Between i (i + n) 0 i n c.entries (omega arith) (omega arith)

  module _ (h : ℕ) (m : ℤ) where
    select-same :
        c.loop ≡ start
        → from ≤ c.index
        → select h m r (oldest_first c.index pairs)
          ≡ kept m (of_object h (take (c.index - from) (drop from c.entries)))
    unfolding pairs
    select-same l b =
        select-append h m r (drop c.index pairs) (take c.index pairs)
        ∙ ap (λ y. y ++ select h m r (take c.index pairs))
            (select-Fails h m r (drop c.index pairs) (
              All-map (Between c.index c.size) (Fails r) _ (λ (p, e) w. same-out p l (inr w.0))
                (behind c.index (omega (arith, v.inside)))))
        ∙ ap (select h m r) (take-split from c.index pairs b)
        ∙ select-append h m r (take from pairs) (take (c.index - from) (drop from pairs))
        ∙ ap (λ y. y ++ select h m r (take (c.index - from) (drop from pairs)))
            (select-Fails h m r (take from pairs) (
              All-map (Between 0 (0 + from)) (Fails r) _
                (λ (p, e) w. same-out p l (inl (omega (arith, w.1)))) (stretch 0 from)))
        ∙ select-Passes h m r (take (c.index - from) (drop from pairs)) (
            All-map (Between from (from + (c.index - from))) (Passes r) _
              (λ (p, e) w. same-in p l w.0 (omega (arith, w.1))) (stretch from (c.index - from)))
        ∙ ap (λ y. kept m (of_object h y)) (entries_of-take 0 from (c.index - from) c.entries)

    select-next :
        c.loop ≡ start + 1
        → c.index < from
        → from ≤ c.size
        → select h m r (oldest_first c.index pairs)
          ≡ kept m (of_object h (drop from c.entries ++ take c.index c.entries))
    unfolding pairs
    select-next l b room =
        ap (λ y. select h m r (y ++ take c.index pairs))
          (drop-split c.index from pairs (omega arith))
        ∙ ap (select h m r) (
            append_assoc (take (from - c.index) (drop c.index pairs)) (drop from pairs)
              (take c.index pairs))
        ∙ select-append h m r (take (from - c.index) (drop c.index pairs))
            (drop from pairs ++ take c.index pairs)
        ∙ ap (λ y. y ++ select h m r (drop from pairs ++ take c.index pairs))
            (select-Fails h m r (take (from - c.index) (drop c.index pairs)) (
              All-map (Between c.index (c.index + (from - c.index))) (Fails r) _
                (λ (p, e) w. next-out p l w.0 (omega (arith, w.1)))
                (stretch c.index (from - c.index))))
        ∙ select-Passes h m r (drop from pairs ++ take c.index pairs) (
            All-append (Passes r) (drop from pairs) (take c.index pairs)
              (All-map (Between from c.size) (Passes r) _ (λ (p, e) w. next-in p l (inl w.0))
                (behind from room))
              (All-map (Between 0 (0 + c.index)) (Passes r) _
                (λ (p, e) w. next-in p l (inr (omega (arith, w.1)))) (stretch 0 c.index)))
        ∙ ap (λ y. kept m (of_object h y))
            (entries_of-append (drop from pairs) (take c.index pairs)
              ∙ ap (λ y. y ++ entries_of (take c.index pairs)) (entries_of-drop from)
              ∙ ap (λ y. drop from c.entries ++ y) (entries_of-take 0 0 c.index c.entries))

    select-lapped :
        ((c.loop ≡ start + 1) × (from ≤ c.index)) ⊎ (start + 2 ≤ c.loop)
        → select h m r (oldest_first c.index pairs)
          ≡ kept m (of_object h (oldest_first c.index c.entries))
    unfolding pairs
    select-lapped l =
        select-Passes h m r (oldest_first c.index pairs) (
          All-append (Passes r) (drop c.index pairs) (take c.index pairs)
            (All-map (Between c.index c.size) (Passes r) _ (λ (p, e) w. lapped-in p l)
              (behind c.index (omega (arith, v.inside))))
            (All-map (Between 0 (0 + c.index)) (Passes r) _ (λ (p, e) w. lapped-in p l)
              (stretch 0 c.index)))
        ∙ ap (λ y. kept m (of_object h y))
            (entries_of-append (drop c.index pairs) (take c.index pairs)
              ∙ ap (λ y. y ++ entries_of (take c.index pairs)) (entries_of-drop c.index)
              ∙ ap (λ y. drop c.index c.entries ++ y) (entries_of-take 0 0 c.index c.entries))

    drop-none : (xs : List XlogEntry) → length xs ≤ c.size → xs ≡ drop (length xs - c.size) xs
    drop-none xs b = let n : length xs - c.size ≡ 0 = omega arith in rw n refl

    select-Since :
        (xs : List XlogEntry)
        → from < c.size
        → Since c.size from start xs c.entries c.index c.loop
        → select h m r (oldest_first c.index pairs)
          ≡ kept m (of_object h (drop (length xs - c.size) xs))
    select-Since xs room (same_round l e t) =
        let n : c.index - from ≡ length xs = omega arith in
        select-same l (omega arith)
        ∙ ap (λ y. kept m (of_object h y))
            (ap (λ k. take k (drop from c.entries)) n ∙ t ∙ drop-none xs (omega (arith, v.inside)))
    select-Since xs room (next_round l e b t) =
        select-next l b (omega arith)
        ∙ ap (λ y. kept m (of_object h y)) (t ∙ drop-none xs (omega arith))
    select-Since xs room (lapped b t l) = select-lapped l ∙ ap (λ y. kept m (of_object h y)) t

    -- What the index gives of the entries since a position.
    copy_places-Since :
        (xs : List XlogEntry)
        → IsIndexed c
        → from < c.size
        → Since c.size from start xs c.entries c.index c.loop
        → copy_places (pos start) (pos from) m c (places_of h c.obj_index)
          ≡ kept m (of_object h (drop (length xs - c.size) xs))
    unfolding pairs r
    copy_places-Since xs i room s =
        let stands = All-StandsIn [] c.entries 0 refl in
        ap (copy_places (pos start) (pos from) m c) (i.places h)
        ∙ copy_places_lem (pos start) (pos from) m c h (oldest_first c.index pairs) (
            All-append (StandsIn c.entries) (drop c.index pairs) (take c.index pairs)
              (All-drop (StandsIn c.entries) c.index pairs stands)
              (All-take (StandsIn c.entries) c.index pairs stands))
        ∙ select-Since xs room s

-- The entries that pass, object by object.
unfoldable pub per_object : ℤ → List ℕ → List XlogEntry → List XlogEntry
per_object m [] xs = []
per_object m (h ∷ hs) xs = kept m (of_object h xs) ++ per_object m hs xs

copy_from_index-Since :
    (from start : ℕ) (c : XlogCache) (v : IsXlogCache c) (m : ℤ) (hs : List ℕ) (xs : List XlogEntry)
    → IsIndexed c
    → from < c.size
    → Since c.size from start xs c.entries c.index c.loop
    → copy_from_index (pos start) (pos from) m c hs ≡ per_object m hs (drop (length xs - c.size) xs)
unfolding copy_from_index per_object
copy_from_index-Since from start c v m [] xs i room s = refl
copy_from_index-Since from start c v m (h ∷ hs) xs i room s =
    ap (λ y. y ++ copy_from_index (pos start) (pos from) m c hs)
      (copy_places-Since from start c v h m xs i room s)
    ∙ ap (λ y. kept m (of_object h (drop (length xs - c.size) xs)) ++ y)
        (copy_from_index-Since from start c v m hs xs i room s)

-- A client that asks for some objects with the position that the cache last gave it gets, object by
-- object and in their order, those of their entries that were put since and pass the two tests, of
-- more entries than the cache has places those among the last ones: what a scan gives, sorted out.
pub get_xlogs-put_xlogs_of :
    (m : ℤ) (hs : List ℕ) (xs : List XlogEntry) (c : XlogCache)
    → IsXlogCache c
    → IsIndexed c
    → All HasBytes xs
    → (let now = put_xlogs xs c in
        get_xlogs (pos c.loop) (pos c.index) m (some hs) now
        ≡ some (per_object m hs (drop (length xs - c.size) xs), now.loop, now.index))
unfolding get_xlogs
get_xlogs-put_xlogs_of m hs xs c v i bytes =
    let now = put_xlogs xs c in
    let (w, e) = put_xlogs-IsXlogCache xs c v in
    let s =
      put_xlogs-Since c.size c.index c.loop xs [] c v.inside refl v
        (Since-empty c.size c.index c.loop c.entries) in
    let got =
      copy_from_index-Since c.index c.loop now w m hs xs (put_xlogs-both xs c bytes v i).1
        (omega (arith, e, v.inside))
        (subst (λ n. Since n c.index c.loop xs now.entries now.index now.loop) (sym e) s) in
    ap (λ y. some (y, now.loop, now.index))
      (got ∙ ap (λ n. per_object m hs (drop (length xs - n) xs)) e)
