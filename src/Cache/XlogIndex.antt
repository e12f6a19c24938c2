-- ===== src/Cache/XlogIndex.antt =====
-- The index of objects that XLogCache of internal/core/cache/xlog_cache.go keeps beside its ring.
use mathlib.Core.Path.{subst}
use scouter_server_go.Common.{
  ℕ, zero, suc, ◌+◌, ◌<◌, ◌==◌, ◌≡◌, ◌≢◌, refl, ap, sym, ◌∙◌, inl, inr, if◌then◌else◌, none, some,
  Option-cases, List, [], ◌∷◌, ◌++◌, append-nil, length, drop, get_elem?, arith, eq_or_ne,
}
use scouter_server_go.Cache.Ring.{set_elem, oldest_first}
use scouter_server_go.Cache.Xlogs.{
  XlogEntry, XlogCache, places_of, remove_places, set_places, unindex, index_entry,
}

places_of-remove_self : (h : ℕ) (m : List (ℕ × List ℕ)) → places_of h (remove_places h m) ≡ []
unfolding places_of remove_places
places_of-remove_self h [] = refl
places_of-remove_self h ((k, ps) ∷ m) = ground (arith, places_of-remove_self h m)

places_of-remove_other :
    (h j : ℕ) (m : List (ℕ × List ℕ)) → j ≢ h → places_of h (remove_places j m) ≡ places_of h m
unfolding places_of remove_places
places_of-remove_other h j [] n = refl
places_of-remove_other h j ((k, ps) ∷ m) n = ground (arith, places_of-remove_other h j m n)

places_of-set_self :
    (h : ℕ) (ps : List ℕ) (m : List (ℕ × List ℕ)) → places_of h (set_places h ps m) ≡ ps
unfolding places_of set_places
places_of-set_self h ps m = ground arith

places_of-set_other :
    (h j : ℕ) (ps : List ℕ) (m : List (ℕ × List ℕ))
    → j ≢ h
    → places_of h (set_places j ps m) ≡ places_of h m
unfolding places_of set_places
places_of-set_other h j ps m n = ground (arith, places_of-remove_other h j m n)

-- The entries with their places.
unfoldable pub enumerate : ℕ → List XlogEntry → List (ℕ × XlogEntry)
enumerate k [] = []
enumerate k (e ∷ es) = (k, e) ∷ enumerate (suc k) es

-- The places of the entries of an object that have bytes.
unfoldable pub places_in : ℕ → List (ℕ × XlogEntry) → List ℕ
places_in h [] = []
places_in h ((p, e) ∷ es) =
    let rest = places_in h es in
    elim e.body [ none ↦ rest | some _ ↦ if e.obj_hash == h then p ∷ rest else rest ]

-- The index has the places of each object, those of older entries first.
pub record IsIndexed (c : XlogCache) : Type 0 where
  pub places :
      (h : ℕ) → places_of h c.obj_index ≡ places_in h (oldest_first c.index (enumerate 0 c.entries))

pub length-enumerate : (k : ℕ) (es : List XlogEntry) → length (enumerate k es) ≡ length es
unfolding enumerate
length-enumerate k [] = refl
length-enumerate k (e ∷ es) = omega (arith, length-enumerate (suc k) es)

pub enumerate-set_elem :
    (k i j : ℕ) (e : XlogEntry) (es : List XlogEntry)
    → j ≡ k + i
    → enumerate k (set_elem i e es) ≡ set_elem i (j, e) (enumerate k es)
unfolding enumerate set_elem
enumerate-set_elem k i j e [] h = refl
enumerate-set_elem k zero j e (f ∷ es) h = let same : j ≡ k = omega arith in rw same refl
enumerate-set_elem k (suc i) j e (f ∷ es) h =
    ap (◌∷◌ (k, f)) (enumerate-set_elem (suc k) i j e es (omega arith))

-- What stands at a place, and behind it.
pub enumerated_at :
    (k i j : ℕ) (es : List XlogEntry)
    → j ≡ k + i
    → i < length es
    → (e : XlogEntry) × (get_elem? es i ≡ some e)
      × (drop i (enumerate k es) ≡ (j, e) ∷ drop (suc i) (enumerate k es))
unfolding enumerate
enumerated_at k i j [] h l = absurd (omega arith)
enumerated_at k zero j (e ∷ es) h l = let same : j ≡ k = omega arith in (e, refl, rw same refl)
enumerated_at k (suc i) j (e ∷ es) h l = enumerated_at (suc k) i j es (omega arith) (omega arith)

places_in-append :
    (h : ℕ) (xs ys : List (ℕ × XlogEntry))
    → places_in h (xs ++ ys) ≡ places_in h xs ++ places_in h ys
unfolding places_in
places_in-append h [] ys = refl
places_in-append h ((p, e) ∷ xs) ys = elim (Option-cases e.body) [
  | inl n ↦ rw (n, places_in) (places_in-append h xs ys)
  | inr (b, n) ↦ rw (n, places_in) (ground (arith, places_in-append h xs ys))
]

module _ (index : ℕ) (old : XlogEntry) (b : List ℕ) (written : old.body ≡ some b)
    (m : List (ℕ × List ℕ)) where
  unindex-last :
      places_of old.obj_hash m ≡ index ∷ [] → unindex index old m ≡ remove_places old.obj_hash m
  unfolding unindex
  unindex-last e = rw (written, e, unindex) (ground arith)

  unindex-more :
      (q : ℕ) (ps : List ℕ)
      → places_of old.obj_hash m ≡ index ∷ q ∷ ps
      → unindex index old m ≡ set_places old.obj_hash (q ∷ ps) m
  unfolding unindex
  unindex-more q ps e = rw (written, e, unindex) (ground arith)

  -- The overwritten place is the first of its object and is taken out.
  places_of-unindex_self :
      (ps : List ℕ)
      → places_of old.obj_hash m ≡ index ∷ ps
      → places_of old.obj_hash (unindex index old m) ≡ ps
  places_of-unindex_self [] e = rw (unindex-last e) (places_of-remove_self old.obj_hash m)
  places_of-unindex_self (q ∷ ps) e =
      rw (unindex-more q ps e) (places_of-set_self old.obj_hash (q ∷ ps) m)

  places_of-unindex_other :
      (h : ℕ) (ps : List ℕ)
      → old.obj_hash ≢ h
      → places_of old.obj_hash m ≡ index ∷ ps
      → places_of h (unindex index old m) ≡ places_of h m
  places_of-unindex_other h [] n e = rw (unindex-last e) (places_of-remove_other h old.obj_hash m n)
  places_of-unindex_other h (q ∷ ps) n e =
      rw (unindex-more q ps e) (places_of-set_other h old.obj_hash (q ∷ ps) m n)

unindex-none :
    (index : ℕ) (old : XlogEntry) (m : List (ℕ × List ℕ))
    → old.body ≡ none
    → unindex index old m ≡ m
unfolding unindex
unindex-none index old m e = rw (e, unindex) refl

module _ (h p : ℕ) (e : XlogEntry) (r : List (ℕ × XlogEntry)) where
  pub places_in-none : e.body ≡ none → places_in h ((p, e) ∷ r) ≡ places_in h r
  unfolding places_in
  places_in-none n = rw (n, places_in) refl

  pub places_in_self :
      (b : List ℕ) → e.body ≡ some b → e.obj_hash ≡ h → places_in h ((p, e) ∷ r) ≡ p ∷ places_in h r
  unfolding places_in
  places_in_self b n s = rw (n, places_in) (ground arith)

  pub places_in_other :
      (b : List ℕ) → e.body ≡ some b → e.obj_hash ≢ h → places_in h ((p, e) ∷ r) ≡ places_in h r
  unfolding places_in
  places_in_other b n s = rw (n, places_in) (ground arith)

-- Without the oldest entry.
pub unindex_lem :
    (h index : ℕ) (old : XlogEntry) (m : List (ℕ × List ℕ)) (r : List (ℕ × XlogEntry))
    → ((k : ℕ) → places_of k m ≡ places_in k ((index, old) ∷ r))
    → places_of h (unindex index old m) ≡ places_in h r
unindex_lem h index old m r at = elim (Option-cases old.body) [
  | inl n ↦ rw (unindex-none index old m n) (at h ∙ places_in-none h index old r n)
  | inr (b, n) ↦
      let own = at old.obj_hash ∙ places_in_self old.obj_hash index old r b n refl in
      elim (eq_or_ne old.obj_hash h) [
        | inl s ↦
            subst (λ k. places_of k (unindex index old m) ≡ places_in k r) s
              (places_of-unindex_self index old b n m (places_in old.obj_hash r) own)
        | inr d ↦
            places_of-unindex_other index old b n m h (places_in old.obj_hash r) d own
            ∙ at h
            ∙ places_in_other h index old r b n d
      ]
]

-- With a new entry behind all others.
pub index_entry_lem :
    (h index : ℕ) (e : XlogEntry) (b : List ℕ) (m : List (ℕ × List ℕ)) (r : List (ℕ × XlogEntry))
    → e.body ≡ some b
    → ((k : ℕ) → places_of k m ≡ places_in k r)
    → places_of h (index_entry index e m) ≡ places_in h (r ++ ((index, e) ∷ []))
unfolding index_entry places_in
index_entry_lem h index e b m r n at = elim (eq_or_ne e.obj_hash h) [
  | inl s ↦
      subst (λ k. places_of k (index_entry index e m) ≡ places_in k (r ++ ((index, e) ∷ []))) s
        (places_of-set_self e.obj_hash (places_of e.obj_hash m ++ (index ∷ [])) m
          ∙ ap (λ ps. ps ++ (index ∷ [])) (at e.obj_hash)
          ∙ sym (
              places_in-append e.obj_hash r ((index, e) ∷ [])
              ∙ ap (λ ps. places_in e.obj_hash r ++ ps)
                  (places_in_self e.obj_hash index e [] b n refl)))
  | inr d ↦
      places_of-set_other h e.obj_hash (places_of e.obj_hash m ++ (index ∷ [])) m d
      ∙ at h
      ∙ sym (
          places_in-append h r ((index, e) ∷ [])
          ∙ ap (λ ps. places_in h r ++ ps) (places_in_other h index e [] b n d)
          ∙ append-nil (places_in h r))
]
