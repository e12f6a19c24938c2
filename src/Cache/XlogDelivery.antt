-- ===== src/Cache/XlogDelivery.antt =====
-- What a client gets from XLogCache of internal/core/cache/xlog_cache.go when it asks again and again
-- for the entries of all objects.
use mathlib.Core.Path.{subst}
use scouter_server_go.Common.{
  elem_at, ℕ, ℤ, pos, eq_int-pred, zero, suc, ◌+◌, ◌-◌, ◌≤◌, ◌<◌, ◌≡◌, ◌⊎◌, refl, ap, sym, ◌∙◌,
  if◌then◌else◌, none, some, List, [], ◌∷◌, ◌++◌, append-nil, append_assoc, length, length-drop,
  take, drop, arith,
}
use scouter_server_go.Cache.Ring.{
  set_elem, length-set_elem, take_all, oldest_first, next_index, next_loop,
}
use scouter_server_go.Cache.Since.{
  Since, same_round, next_round, lapped, Since-empty, Since-set_elem,
}
use scouter_server_go.Cache.Xlogs.{
  XlogEntry, XlogCache, put_xlog, is_kept, copy_filtered, copy_all, scan, get_xlogs,
}

pub record IsXlogCache (c : XlogCache) : Type 0 where
  pub cells : length c.entries ≡ c.size
  pub inside : c.index < c.size

-- Entries that are put one after another.
unfoldable pub put_xlogs : List XlogEntry → XlogCache → XlogCache
put_xlogs [] c = c
put_xlogs (x ∷ xs) c = put_xlogs xs (put_xlog x c)

module _ (x : XlogEntry) (c : XlogCache) where
  pub put_xlog-IsXlogCache : IsXlogCache c → IsXlogCache (put_xlog x c)
  unfolding put_xlog
  put_xlog-IsXlogCache v = record {
    cells = length-set_elem c.index x c.entries ∙ v.cells;
    inside = ground (arith, v.inside);
  }

  size-put_xlog : (put_xlog x c).size ≡ c.size
  unfolding put_xlog
  size-put_xlog = refl

  put_xlog-Since :
      (size from start : ℕ) (ys : List XlogEntry)
      → from < size
      → c.size ≡ size
      → IsXlogCache c
      → Since size from start ys c.entries c.index c.loop
      → Since size from start
          (ys ++ (x ∷ []))
          (put_xlog x c).entries
          (put_xlog x c).index
          (put_xlog x c).loop
  unfolding put_xlog
  put_xlog-Since size from start ys room e v s =
      subst
        (λ n.
          Since size from start (ys ++ (x ∷ [])) (set_elem c.index x c.entries)
            (next_index n c.index) (next_loop n c.index c.loop))
        (sym e)
        (Since-set_elem size from start room x ys c.entries c.index c.loop (omega (arith, v.inside))
          (v.cells ∙ e) s)

pub put_xlogs-IsXlogCache :
    (xs : List XlogEntry) (c : XlogCache)
    → IsXlogCache c
    → IsXlogCache (put_xlogs xs c) × ((put_xlogs xs c).size ≡ c.size)
unfolding put_xlogs
put_xlogs-IsXlogCache [] c v = (v, refl)
put_xlogs-IsXlogCache (x ∷ xs) c v =
    let (w, e) = put_xlogs-IsXlogCache xs (put_xlog x c) (put_xlog-IsXlogCache x c v) in
    (w, e ∙ size-put_xlog x c)

pub put_xlogs-Since :
    (size from start : ℕ) (xs ys : List XlogEntry) (c : XlogCache)
    → from < size
    → c.size ≡ size
    → IsXlogCache c
    → Since size from start ys c.entries c.index c.loop
    → Since size from start
        (ys ++ xs)
        (put_xlogs xs c).entries
        (put_xlogs xs c).index
        (put_xlogs xs c).loop
unfolding put_xlogs
put_xlogs-Since size from start [] ys c room e v s = rw append-nil s
put_xlogs-Since size from start (x ∷ xs) ys c room e v s =
    let now = put_xlogs xs (put_xlog x c) in
    subst (λ zs. Since size from start zs now.entries now.index now.loop)
      (append_assoc ys (x ∷ []) xs)
      (put_xlogs-Since size from start xs (ys ++ (x ∷ [])) (put_xlog x c) room
        (size-put_xlog x c ∙ e) (put_xlog-IsXlogCache x c v)
        (put_xlog-Since x c size from start ys room e v s))

-- The entries of a list that the tests let through.
unfoldable pub kept : ℤ → List XlogEntry → List XlogEntry
kept m [] = []
kept m (e ∷ es) = let rest = kept m es in if is_kept m e then e ∷ rest else rest

kept-append : (m : ℤ) (xs ys : List XlogEntry) → kept m (xs ++ ys) ≡ kept m xs ++ kept m ys
unfolding kept
kept-append m [] ys = refl
kept-append m (x ∷ xs) ys = ground (arith, kept-append m xs ys)

copy_filtered_lem :
    (es : List XlogEntry) (m : ℤ) (i n : ℕ)
    → n + i ≤ length es
    → copy_filtered es m i n ≡ kept m (take n (drop i es))
unfolding copy_filtered kept
copy_filtered_lem es m i zero h = refl
copy_filtered_lem es m i (suc n) h =
    let (e, at, d) = elem_at es i (omega arith) in
    let rest = copy_filtered_lem es m (suc i) n (omega arith) in
    rw (at, copy_filtered) (rw (rest, d) refl)

module _ (m : ℤ) (c : XlogCache) (v : IsXlogCache c) where
  copy_all_lem : copy_all m c ≡ kept m (oldest_first c.index c.entries)
  unfolding copy_all
  copy_all_lem =
      ap (λ r. r ++ copy_filtered c.entries m 0 c.index)
        (copy_filtered_lem c.entries m c.index (c.size - c.index) (omega (arith, v.cells, v.inside))
          ∙ ap (kept m) (
              take_all (c.size - c.index) (drop c.index c.entries)
                (omega (arith, v.cells, length-drop c.index c.entries))))
      ∙ ap (λ r. kept m (drop c.index c.entries) ++ r)
          (copy_filtered_lem c.entries m 0 c.index (omega (arith, v.cells, v.inside)))
      ∙ sym (kept-append m (drop c.index c.entries) (take c.index c.entries))

  module _ (from start : ℕ) where
    scan-same :
        c.loop ≡ start
        → scan (pos start) (pos from) m c ≡ some (copy_filtered c.entries m from (c.index - from))
    unfolding scan
    scan-same l = ground arith

    scan-next :
        c.loop ≡ start + 1
        → c.index < from
        → scan (pos start) (pos from) m c
          ≡ some (
              copy_filtered c.entries m from (c.size - from) ++ copy_filtered c.entries m 0 c.index)
    unfolding scan
    scan-next l h = rw (eq_int-pred start c.loop, scan) (ground arith)

    scan-lapped :
        ((c.loop ≡ start + 1) × (from ≤ c.index)) ⊎ (start + 2 ≤ c.loop)
        → scan (pos start) (pos from) m c ≡ some (copy_all m c)
    unfolding scan
    scan-lapped l = rw (eq_int-pred start c.loop, scan) (ground arith)

    drop-none : (xs : List XlogEntry) → length xs ≤ c.size → drop (length xs - c.size) xs ≡ xs
    drop-none xs h = let n : length xs - c.size ≡ 0 = omega arith in rw n refl

    scan-Since :
        (xs : List XlogEntry)
        → from < c.size
        → Since c.size from start xs c.entries c.index c.loop
        → scan (pos start) (pos from) m c ≡ some (kept m (drop (length xs - c.size) xs))
    scan-Since xs room (same_round l e t) =
        let n : c.index - from ≡ length xs = omega arith in
        scan-same l
        ∙ ap some (
            rw n (
              copy_filtered_lem c.entries m from (length xs) (omega (arith, v.cells, v.inside))
              ∙ ap (kept m) t)
            ∙ ap (kept m) (sym (drop-none xs (omega (arith, v.inside)))))
    scan-Since xs room (next_round l e b t) =
        scan-next l b
        ∙ ap some (
            ap (λ r. r ++ copy_filtered c.entries m 0 c.index)
              (copy_filtered_lem c.entries m from (c.size - from) (omega (arith, v.cells))
                ∙ ap (kept m) (
                    take_all (c.size - from) (drop from c.entries)
                      (omega (arith, v.cells, length-drop from c.entries))))
            ∙ ap (λ r. kept m (drop from c.entries) ++ r)
                (copy_filtered_lem c.entries m 0 c.index (omega (arith, v.cells, v.inside)))
            ∙ sym (kept-append m (drop from c.entries) (take c.index c.entries))
            ∙ ap (kept m) (t ∙ sym (drop-none xs (omega arith))))
    scan-Since xs room (lapped b t l) = scan-lapped l ∙ ap some (copy_all_lem ∙ ap (kept m) t)

-- A client that asks for the entries of all objects with the position that the cache last gave it
-- gets, in their order, the entries that were put since and pass the two tests; of more entries than
-- the cache has places it gets those of the last ones, as many as there are places.
pub get_xlogs-put_xlogs :
    (m : ℤ) (xs : List XlogEntry) (c : XlogCache)
    → IsXlogCache c
    → (let now = put_xlogs xs c in
        get_xlogs (pos c.loop) (pos c.index) m none now
        ≡ some (kept m (drop (length xs - c.size) xs), now.loop, now.index))
unfolding get_xlogs
get_xlogs-put_xlogs m xs c v =
    let now = put_xlogs xs c in
    let (w, e) = put_xlogs-IsXlogCache xs c v in
    let s =
      put_xlogs-Since c.size c.index c.loop xs [] c v.inside refl v
        (Since-empty c.size c.index c.loop c.entries) in
    let got =
      scan-Since m now w c.index c.loop xs (omega (arith, e, v.inside))
        (subst (λ n. Since n c.index c.loop xs now.entries now.index now.loop) (sym e) s) in
    rw (got, get_xlogs) (rw e refl)
