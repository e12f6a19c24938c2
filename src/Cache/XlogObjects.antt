-- ===== src/Cache/XlogObjects.antt =====
-- What a client gets from XLogCache of internal/core/cache/xlog_cache.go that asks for the entries of
-- some objects: the path over the index.
use mathlib.Core.Path.{subst}
use scouter_server_go.Common.{
  ℕ, ℤ, zero, suc, ◌+◌, ◌≤◌, ◌<◌, ◌==◌, ◌≡◌, refl, ap, inl, inr, Bool, true, false, ◌&&◌,
  if◌then◌else◌, none, some, Option-cases, List, [], ◌∷◌, ◌++◌, append_assoc, length, length-append,
  take, drop, get_elem?, All, arith, eq_or_ne,
}
use scouter_server_go.Cache.Xlogs.{XlogEntry, XlogCache, is_kept, in_range, copy_places}
use scouter_server_go.Cache.XlogDelivery.{kept}
use scouter_server_go.Cache.XlogIndex.{
  enumerate, places_in, places_in_self, places_in_other, places_in-none,
}

-- The entries of an object.
unfoldable pub of_object : ℕ → List XlogEntry → List XlogEntry
of_object h [] = []
of_object h (e ∷ es) = let rest = of_object h es in if e.obj_hash == h then e ∷ rest else rest

-- The entries of an object at places that pass a test, which pass the tests of the loop.
unfoldable pub select : ℕ → ℤ → (ℕ → Bool) → List (ℕ × XlogEntry) → List XlogEntry
select h m r [] = []
select h m r ((p, e) ∷ es) =
    let rest = select h m r es in if (e.obj_hash == h) && r p && is_kept m e then e ∷ rest else rest

abbrev pub StandsIn : List XlogEntry → ℕ × XlogEntry → Type 0
StandsIn es (p, e) = get_elem? es p ≡ some e

abbrev pub Passes : (ℕ → Bool) → ℕ × XlogEntry → Type 0
Passes r (p, e) = r p ≡ true

abbrev pub Fails : (ℕ → Bool) → ℕ × XlogEntry → Type 0
Fails r (p, e) = r p ≡ false

abbrev pub entries_of : List (ℕ × XlogEntry) → List XlogEntry
entries_of [] = []
entries_of ((p, e) ∷ es) = e ∷ entries_of es

module _ (h : ℕ) (m : ℤ) (r : ℕ → Bool) where
  pub select-append :
      (xs ys : List (ℕ × XlogEntry)) → select h m r (xs ++ ys) ≡ select h m r xs ++ select h m r ys
  unfolding select
  select-append [] ys = refl
  select-append ((p, e) ∷ xs) ys = ground (arith, select-append xs ys)

  pub select-Fails : (xs : List (ℕ × XlogEntry)) → All (Fails r) xs → select h m r xs ≡ []
  unfolding select
  select-Fails [] a = refl
  select-Fails ((p, e) ∷ xs) a = rw a.0 (ground (arith, select-Fails xs a.1))

  pub select-Passes :
      (xs : List (ℕ × XlogEntry))
      → All (Passes r) xs
      → select h m r xs ≡ kept m (of_object h (entries_of xs))
  unfolding select kept of_object
  select-Passes [] a = refl
  select-Passes ((p, e) ∷ xs) a = rw a.0 (ground (arith, select-Passes xs a.1))

kept-none : (m : ℤ) (e : XlogEntry) → e.body ≡ none → is_kept m e ≡ false
unfolding is_kept
kept-none m e n = rw (n, is_kept) refl

module _ (l i m : ℤ) (c : XlogCache) (h : ℕ) where
  copy_places-cons :
      (p : ℕ) (e : XlogEntry) (ps : List ℕ)
      → get_elem? c.entries p ≡ some e
      → copy_places l i m c (p ∷ ps) ≡ (
          let rest = copy_places l i m c ps in
          if in_range l i c p && is_kept m e then e ∷ rest else rest)
  unfolding copy_places
  copy_places-cons p e ps at = rw (at, copy_places) (ground arith)

  pub copy_places_lem :
      (xs : List (ℕ × XlogEntry))
      → All (StandsIn c.entries) xs
      → copy_places l i m c (places_in h xs) ≡ select h m (in_range l i c) xs
  unfolding select places_in copy_places
  copy_places_lem [] a = refl
  copy_places_lem ((p, e) ∷ xs) a =
      let rest = copy_places_lem xs a.1 in
      elim (Option-cases e.body) [
        | inl n ↦ rw (places_in-none h p e xs n, kept-none m e n) (ground (arith, rest))
        | inr (b, n) ↦ elim (eq_or_ne e.obj_hash h) [
          | inl s ↦
              rw (places_in_self h p e xs b n s, copy_places-cons p e (places_in h xs) a.0)
                (ground (arith, rest))
          | inr d ↦ rw (places_in_other h p e xs b n d) (ground (arith, rest))
        ]
      ]

at_end :
    (front : List XlogEntry) (x : XlogEntry) (es : List XlogEntry) (k : ℕ)
    → length front ≡ k
    → get_elem? (front ++ (x ∷ es)) k ≡ some x
at_end [] x es zero e = refl
at_end [] x es (suc k) e = absurd (omega arith)
at_end (y ∷ front) x es zero e = absurd (omega arith)
at_end (y ∷ front) x es (suc k) e = at_end front x es k (omega arith)

-- Every pair stands where it says.
pub All-StandsIn :
    (front es : List XlogEntry) (k : ℕ)
    → length front ≡ k
    → All (StandsIn (front ++ es)) (enumerate k es)
unfolding enumerate
All-StandsIn front [] k e = tt
All-StandsIn front (x ∷ es) k e = (
  at_end front x es k e,
  subst (λ ys. All (StandsIn ys) (enumerate (suc k) es)) (append_assoc front (x ∷ []) es)
      (All-StandsIn (front ++ (x ∷ [])) es (suc k) (omega (arith, length-append front (x ∷ [])))),
)

-- The places of a stretch.
abbrev pub Between : ℕ → ℕ → ℕ × XlogEntry → Type 0
Between lo hi (p, e) = (lo ≤ p) × (p < hi)

pub All-Between :
    (lo hi k i n : ℕ) (es : List XlogEntry)
    → lo ≤ k + i
    → k + i + n ≤ hi
    → All (Between lo hi) (take n (drop i (enumerate k es)))
unfolding enumerate
All-Between lo hi k i zero es a b = tt
All-Between lo hi k zero (suc n) [] a b = tt
All-Between lo hi k zero (suc n) (x ∷ es) a b =
    ((omega arith, omega arith), All-Between lo hi (suc k) zero n es (omega arith) (omega arith))
All-Between lo hi k (suc i) (suc n) [] a b = tt
All-Between lo hi k (suc i) (suc n) (x ∷ es) a b =
    All-Between lo hi (suc k) i (suc n) es (omega arith) (omega arith)

pub entries_of-append :
    (xs ys : List (ℕ × XlogEntry)) → entries_of (xs ++ ys) ≡ entries_of xs ++ entries_of ys
entries_of-append [] ys = refl
entries_of-append ((p, e) ∷ xs) ys = ap (◌∷◌ e) (entries_of-append xs ys)

pub entries_of-take :
    (k i n : ℕ) (es : List XlogEntry)
    → entries_of (take n (drop i (enumerate k es))) ≡ take n (drop i es)
unfolding enumerate
entries_of-take k i zero es = refl
entries_of-take k zero (suc n) [] = refl
entries_of-take k zero (suc n) (x ∷ es) = ap (◌∷◌ x) (entries_of-take (suc k) zero n es)
entries_of-take k (suc i) (suc n) [] = refl
entries_of-take k (suc i) (suc n) (x ∷ es) = entries_of-take (suc k) i (suc n) es
