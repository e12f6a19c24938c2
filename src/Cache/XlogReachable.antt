-- ===== src/Cache/XlogReachable.antt =====
-- Every state that XLogCache of internal/core/cache/xlog_cache.go reaches has a right index of objects.
use scouter_server_go.Common.{
  ℕ, zero, suc, ◌+◌, ◌<◌, ◌≡◌, ◌⊎◌, refl, ap, sym, ◌∙◌, inl, inr, some, List, [], ◌∷◌, ◌++◌,
  append-nil, length, take, drop, get_elem?, All, arith, lt_or_le,
}
use scouter_server_go.Cache.Ring.{oldest_first, oldest_first-turned, next_index}
use scouter_server_go.Cache.Xlogs.{
  XlogEntry, XlogCache, new_xlog_cache, no_entries, places_of, unindex, index_entry, put_xlog,
}
use scouter_server_go.Cache.XlogDelivery.{IsXlogCache, put_xlog-IsXlogCache, put_xlogs}
use scouter_server_go.Cache.XlogIndex.{
  enumerate, places_in, IsIndexed, length-enumerate, enumerate-set_elem, enumerated_at, unindex_lem,
  index_entry_lem,
}

next_index-turned :
    (size index : ℕ)
    → index < size
    → (next_index size index ≡ suc index) ⊎ ((size ≡ suc index) × (next_index size index ≡ 0))
next_index-turned size index h = elim (lt_or_le (index + 1) size) [
  | inl l ↦ inl (ground arith)
  | inr g ↦ inr (omega arith, ground arith)
]

module _ (e : XlogEntry) (c : XlogCache) (v : IsXlogCache c) where
  -- The oldest entry is gone, and the new one stands behind all others.
  ordered-put_xlog :
      (old : XlogEntry)
      → drop c.index (enumerate 0 c.entries)
        ≡ (c.index, old) ∷ drop (suc c.index) (enumerate 0 c.entries)
      → oldest_first (put_xlog e c).index (enumerate 0 (put_xlog e c).entries)
        ≡ (drop (suc c.index) (enumerate 0 c.entries) ++ take c.index (enumerate 0 c.entries))
          ++ ((c.index, e) ∷ [])
  unfolding put_xlog
  ordered-put_xlog old d =
      ap (oldest_first (next_index c.size c.index))
        (enumerate-set_elem 0 c.index c.index e c.entries (omega arith))
      ∙ oldest_first-turned c.size c.index (next_index c.size c.index) (c.index, e)
          (enumerate 0 c.entries) v.inside (length-enumerate 0 c.entries ∙ v.cells)
          (next_index-turned c.size c.index v.inside)
      ∙ ap (λ y. drop 1 (y ++ take c.index (enumerate 0 c.entries)) ++ ((c.index, e) ∷ [])) d

  obj_index-put_xlog :
      (old : XlogEntry)
      → get_elem? c.entries c.index ≡ some old
      → (put_xlog e c).obj_index ≡ index_entry c.index e (unindex c.index old c.obj_index)
  unfolding put_xlog
  obj_index-put_xlog old at = rw at refl

  put_xlog-IsIndexed : (b : List ℕ) → e.body ≡ some b → IsIndexed c → IsIndexed (put_xlog e c)
  put_xlog-IsIndexed b n i =
      let (old, at, d) =
        enumerated_at 0 c.index c.index c.entries (omega arith)
          (omega (arith, v.cells, v.inside)) in
      let rest =
        drop (suc c.index) (enumerate 0 c.entries) ++ take c.index (enumerate 0 c.entries) in
      let before : (k : ℕ) → places_of k c.obj_index ≡ places_in k ((c.index, old) ∷ rest) =
        λ k. i.places k ∙ ap (λ y. places_in k (y ++ take c.index (enumerate 0 c.entries))) d in
      record {
        places = λ h.
            rw (obj_index-put_xlog old at, ordered-put_xlog old d)
              (index_entry_lem h c.index e b (unindex c.index old c.obj_index) rest n
                (λ k. unindex_lem k c.index old c.obj_index rest before));
      }

places_in-no_entries : (h k n : ℕ) → places_in h (enumerate k (no_entries n)) ≡ []
unfolding places_in enumerate no_entries
places_in-no_entries h k zero = refl
places_in-no_entries h k (suc n) = places_in-no_entries h (suc k) n

length-no_entries : (n : ℕ) → length (no_entries n) ≡ n
unfolding no_entries
length-no_entries zero = refl
length-no_entries (suc n) = omega (arith, length-no_entries n)

new_xlog_cache-IsIndexed : (size : ℕ) → IsIndexed (new_xlog_cache size)
unfolding new_xlog_cache places_of
new_xlog_cache-IsIndexed size = record {
  places = λ h. sym (
      ap (places_in h) (append-nil (enumerate 0 (no_entries size)))
      ∙ places_in-no_entries h 0 size);
}

new_xlog_cache-IsXlogCache : (size : ℕ) → 0 < size → IsXlogCache (new_xlog_cache size)
unfolding new_xlog_cache
new_xlog_cache-IsXlogCache size h = record { cells = length-no_entries size; inside = h }

abbrev pub HasBytes : XlogEntry → Type 0
HasBytes e = (b : List ℕ) × (e.body ≡ some b)

pub put_xlogs-both :
    (xs : List XlogEntry) (c : XlogCache)
    → All HasBytes xs
    → IsXlogCache c
    → IsIndexed c
    → IsXlogCache (put_xlogs xs c) × IsIndexed (put_xlogs xs c)
unfolding put_xlogs
put_xlogs-both [] c hs v i = (v, i)
put_xlogs-both (x ∷ xs) c hs v i =
    let (b, n) = hs.0 in
    put_xlogs-both xs (put_xlog x c) hs.1 (put_xlog-IsXlogCache x c v)
      (put_xlog-IsIndexed x c v b n i)

-- After any entries with bytes were put into a new cache, the index has for each object the places
-- of its entries that the ring still holds, those of older entries first, and no others.
pub put_xlogs-IsIndexed :
    (size : ℕ) (xs : List XlogEntry)
    → 0 < size
    → All HasBytes xs
    → IsXlogCache (put_xlogs xs (new_xlog_cache size))
      × IsIndexed (put_xlogs xs (new_xlog_cache size))
put_xlogs-IsIndexed size xs h hs =
    put_xlogs-both xs (new_xlog_cache size) hs (new_xlog_cache-IsXlogCache size h)
      (new_xlog_cache-IsIndexed size)
