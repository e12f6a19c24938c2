-- ===== src/Udp/Reassembly.antt =====
-- Reassembly by Add of internal/netio/udp/multipacket.go: the fragments of a packet give its bytes
-- in whatever order they come, also repeated and between those of other packets.
use scouter_server_go.Common.{
  ℕ, ◌+◌, ◌^◌, ◌<◌, ◌≡◌, ◌≢◌, refl, ap, ◌⊎◌, inl, inr, Bool-cases, leb, none, some, Option-cases,
  List, [], ◌∷◌, length, get_elem?, get_elem?-lt, arith,
}
use scouter_server_go.Udp.Multipacket.{
  MultiPacket, MultiPacketProcessor, Added, waiting, done, is_done, to_bytes, find, delete, store,
  is_missing, put_fragment, set_fragment, receive,
}
use scouter_server_go.Udp.Fragments.{
  concat, count, Holds, Holds-set_fragment, count-set_fragment, missing-set_fragment, join-full,
}

pub find-delete : (j k : ℕ) (ps : List (ℕ × MultiPacket)) → k ≢ j → find j (delete k ps) ≡ find j ps
unfolding find delete
find-delete j k [] h = refl
find-delete j k ((i, mp) ∷ ps) h = ground (arith, find-delete j k ps h)

pub find-store :
    (k : ℕ) (mp : MultiPacket) (ps : List (ℕ × MultiPacket)) → find k (store k mp ps) ≡ some mp
unfolding find store
find-store k mp ps = ground arith

pub find-store_other :
    (j k : ℕ) (mp : MultiPacket) (ps : List (ℕ × MultiPacket))
    → k ≢ j
    → find j (store k mp ps) ≡ find j ps
unfolding find store
find-store_other j k mp ps h = ground (arith, find-delete j k ps h)

-- The packet so far holds nothing but fragments of `frags`.
pub record IsPartOf (frags : List (List ℕ)) (mp : MultiPacket) : Type 0 where
  pub total : mp.total ≡ length frags
  pub held : Holds frags mp.fragments
  pub counted : mp.received ≡ count mp.fragments

abbrev pub IsMissing : MultiPacket → ℕ → Type 0
IsMissing mp j = get_elem? mp.fragments j ≡ some none

abbrev pub Progress :
    (frags : List (List ℕ)) (pkid num : ℕ) → MultiPacket → Added × MultiPacketProcessor → Type 0
Progress frags pkid num mp r =
    (r.0 ≡ done (concat frags))
    ⊎ ((next : MultiPacket) × (r.0 ≡ waiting)
        × (find pkid r.1.packets ≡ some next)
        × IsPartOf frags next
        × (count next.fragments < length frags)
        × ((j : ℕ) → IsMissing next j → IsMissing mp j × (num ≢ j)))

-- A fragment that is there, or out of range, is left.
put_fragment-kept :
    (num : ℕ) (b : List ℕ) (mp : MultiPacket)
    → get_elem? mp.fragments num ≢ some none
    → put_fragment num b mp ≡ mp
unfolding put_fragment is_missing
put_fragment-kept num b mp x = elim (Option-cases (get_elem? mp.fragments num)) [
  | inl y ↦ rw y (ground arith)
  | inr (some c, y) ↦ rw y (ground arith)
  | inr (none, y) ↦ absurd (x y)
]

put_fragment-filled :
    (num : ℕ) (b : List ℕ) (mp : MultiPacket)
    → get_elem? mp.fragments num ≡ some none
    → num < 2 ^ 15
    → num < mp.total
    → put_fragment num b mp
      ≡ record mp { fragments = set_fragment num b mp.fragments; received = mp.received + 1 }
unfolding put_fragment is_missing
put_fragment-filled num b mp x h l = rw x (ground arith)

module _ (frags : List (List ℕ)) (small : length frags < 2 ^ 15) where
  -- A fragment of the packet leaves it a part of the packet, in which that fragment is there.
  put_fragment-IsPartOf :
      (num : ℕ) (b : List ℕ) (mp : MultiPacket)
      → IsPartOf frags mp
      → get_elem? frags num ≡ some b
      → IsPartOf frags (put_fragment num b mp)
        × ((j : ℕ) → IsMissing (put_fragment num b mp) j → IsMissing mp j × (num ≢ j))
  put_fragment-IsPartOf num b mp p e = elim (Option-cases (get_elem? mp.fragments num)) [
    | inl x ↦ rw (put_fragment-kept num b mp (cc x)) (p, λ j m. (m, λ q. cc (x, m, q)))
    | inr (some c, x) ↦ rw (put_fragment-kept num b mp (cc x)) (p, λ j m. (m, λ q. cc (x, m, q)))
    | inr (none, x) ↦
        let inside = get_elem?-lt frags num b e in
        rw (put_fragment-filled num b mp x (omega arith) (omega (arith, p.total))) (
          record {
            total = p.total;
            held = Holds-set_fragment frags mp.fragments num b p.held e;
            counted = omega (arith, p.counted, count-set_fragment mp.fragments num b x);
          },
          λ j m. missing-set_fragment mp.fragments num j b m,
        )
  ]

  -- The fragment completes the packet, or the map holds the packet with that fragment.
  pub receive-Progress :
      (pkid num : ℕ) (b : List ℕ) (mp : MultiPacket) (p : MultiPacketProcessor)
      → IsPartOf frags mp
      → get_elem? frags num ≡ some b
      → Progress frags pkid num mp (receive pkid num b mp p)
  unfolding receive is_done to_bytes
  receive-Progress pkid num b mp p h e =
      let next = put_fragment num b mp in
      let (part, fewer) = put_fragment-IsPartOf num b mp h e in
      elim (Bool-cases (leb next.total next.received)) [
        | inl full ↦ rw full (
            inl (
              ap done (
                join-full frags next.fragments part.held
                  (ground (arith, part.total, part.counted)))))
        | inr short ↦ rw short (
            inr (
              next,
              refl,
              find-store pkid next p.packets,
              part,
              ground (arith, part.total, part.counted),
              fewer,
            ))
      ]
