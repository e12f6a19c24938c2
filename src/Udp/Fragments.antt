-- ===== src/Udp/Fragments.antt =====
-- The fragments of a packet that have come so far, against the packet that was split
-- (internal/netio/udp/multipacket.go).
use scouter_server_go.Common.{
  ℕ, zero, suc, ◌+◌, ◌≤◌, ◌<◌, ◌≡◌, ◌≢◌, refl, ◌⊎◌, inl, inr, Option, none, some, List, [], ◌∷◌,
  ◌++◌, length, get_elem?, arith,
}
use scouter_server_go.Udp.Multipacket.{join, nil_fragments, set_fragment}

abbrev pub concat : List (List ℕ) → List ℕ
concat [] = []
concat (b ∷ bs) = b ++ concat bs

-- How many fragments are there.
abbrev pub count : List (Option (List ℕ)) → ℕ
count [] = 0
count (none ∷ fs) = count fs
count (some b ∷ fs) = suc (count fs)

-- Every fragment that is there is the one of the split packet.
abbrev pub Holds : List (List ℕ) → List (Option (List ℕ)) → Type 0
Holds [] [] = Unit
Holds [] (f ∷ fs) = ⊥
Holds (b ∷ bs) [] = ⊥
Holds (b ∷ bs) (f ∷ fs) = ((f ≡ none) ⊎ (f ≡ some b)) × Holds bs fs

pub Holds-length :
    (bs : List (List ℕ)) (fs : List (Option (List ℕ))) → Holds bs fs → length fs ≡ length bs
Holds-length [] [] h = refl
Holds-length [] (f ∷ fs) h = elim h [ ]
Holds-length (b ∷ bs) [] h = elim h [ ]
Holds-length (b ∷ bs) (f ∷ fs) h = omega (arith, Holds-length bs fs h.1)

pub Holds-nil_fragments : (bs : List (List ℕ)) → Holds bs (nil_fragments (length bs))
unfolding nil_fragments
Holds-nil_fragments [] = tt
Holds-nil_fragments (b ∷ bs) = (inl refl, Holds-nil_fragments bs)

pub count-nil_fragments : (n : ℕ) → count (nil_fragments n) ≡ 0
unfolding nil_fragments
count-nil_fragments zero = refl
count-nil_fragments (suc n) = count-nil_fragments n

pub count-le-length : (fs : List (Option (List ℕ))) → count fs ≤ length fs
count-le-length [] = omega arith
count-le-length (none ∷ fs) = omega (arith, count-le-length fs)
count-le-length (some b ∷ fs) = omega (arith, count-le-length fs)

pub Holds-set_fragment :
    (bs : List (List ℕ)) (fs : List (Option (List ℕ))) (i : ℕ) (b : List ℕ)
    → Holds bs fs
    → get_elem? bs i ≡ some b
    → Holds bs (set_fragment i b fs)
unfolding set_fragment
Holds-set_fragment [] [] i b h e = tt
Holds-set_fragment [] (f ∷ fs) i b h e = elim h [ ]
Holds-set_fragment (c ∷ bs) [] i b h e = elim h [ ]
Holds-set_fragment (c ∷ bs) (f ∷ fs) zero b h e = (inr (cc (e)), h.1)
Holds-set_fragment (c ∷ bs) (f ∷ fs) (suc i) b h e = (h.0, Holds-set_fragment bs fs i b h.1 e)

pub count-set_fragment :
    (fs : List (Option (List ℕ))) (i : ℕ) (b : List ℕ)
    → get_elem? fs i ≡ some none
    → count (set_fragment i b fs) ≡ count fs + 1
unfolding set_fragment
count-set_fragment [] i b e = cc
count-set_fragment (none ∷ fs) zero b e = omega arith
count-set_fragment (some c ∷ fs) zero b e = cc
count-set_fragment (none ∷ fs) (suc i) b e = count-set_fragment fs i b e
count-set_fragment (some c ∷ fs) (suc i) b e = omega (arith, count-set_fragment fs i b e)

-- What is missing after a fragment came was missing before, and is not that fragment.
pub missing-set_fragment :
    (fs : List (Option (List ℕ))) (i j : ℕ) (b : List ℕ)
    → get_elem? (set_fragment i b fs) j ≡ some none
    → (get_elem? fs j ≡ some none) × (i ≢ j)
unfolding set_fragment
missing-set_fragment [] i j b e = cc
missing-set_fragment (f ∷ fs) zero zero b e = cc
missing-set_fragment (f ∷ fs) zero (suc j) b e = (e, λ x. omega arith)
missing-set_fragment (f ∷ fs) (suc i) zero b e = (e, λ x. omega arith)
missing-set_fragment (f ∷ fs) (suc i) (suc j) b e =
    let (p, q) = missing-set_fragment fs i j b e in (p, λ x. q (omega arith))

-- With no fragment missing the join is the packet.
pub join-full :
    (bs : List (List ℕ)) (fs : List (Option (List ℕ)))
    → Holds bs fs
    → length bs ≤ count fs
    → join fs ≡ concat bs
unfolding join
join-full [] [] h l = refl
join-full [] (_ ∷ fs) h l = elim h [ ]
join-full (b ∷ bs) [] h l = elim h [ ]
join-full (b ∷ bs) (none ∷ fs) h l =
    absurd (omega (arith, l, count-le-length fs, Holds-length bs fs h.1))
join-full (b ∷ bs) (some c ∷ fs) (inr e, h) l = cc (e, join-full bs fs h (omega arith))
join-full (b ∷ bs) (some c ∷ fs) (inl e, h) l = absurd cc

-- Below the length of the packet a fragment is missing.
pub missing_exists :
    (fs : List (Option (List ℕ))) → count fs < length fs → (i : ℕ) × (get_elem? fs i ≡ some none)
missing_exists (none ∷ fs) l = (0, refl)
missing_exists (some b ∷ fs) l = let (i, e) = missing_exists fs (omega arith) in (suc i, e)
missing_exists [] l = absurd (omega arith)
