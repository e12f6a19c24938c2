-- ===== src/Udp/Stream.antt =====
-- A stream of fragments of many packets, each of which goes through Add of
-- internal/netio/udp/multipacket.go.
use mathlib.Core.Path.{subst}
use scouter_server_go.Common.{
  ℕ, ◌^◌, ◌≤◌, ◌<◌, ◌==◌, ◌≡◌, ◌≢◌, refl, sym, ◌∙◌, ◌⊎◌, inl, inr, Bool-cases, leb, if◌then◌else◌,
  none, some, Option-cases, List, [], ◌∷◌, length, get_elem?, get_elem?-lt, All, arith, lt→ltb,
  lt_or_le, eq_or_ne,
}
use scouter_server_go.Udp.Multipacket.{
  MultiPacket, MultiPacketProcessor, Added, waiting, done, crashed, is_done, find, make_room,
  new_multi_packet, receive, add, put_fragment,
}
use scouter_server_go.Udp.Fragments.{
  concat, count, Holds-nil_fragments, Holds-length, count-nil_fragments, missing_exists,
}
use scouter_server_go.Udp.Reassembly.{
  find-delete, find-store_other, IsPartOf, IsMissing, Progress, receive-Progress,
}

-- The arguments of one call of `Add`, with the time and the key that `range` gives first.
pub record Datagram : Type 0 where
  pub pkid : ℕ
  pub total : ℕ
  pub num : ℕ
  pub body : List ℕ
  pub obj_hash : ℕ
  pub now : ℕ
  pub victim : ℕ

unfoldable pub handle : Datagram → MultiPacketProcessor → Added × MultiPacketProcessor
handle d p = add d.pkid d.total d.num d.body d.obj_hash d.now d.victim p

-- What came first, unless it is nothing.
abbrev pub first : Added → Added → Added
first waiting r = r
first (done b) r = done b
first crashed r = crashed

-- The first thing but nil that `Add` returns for a packet in a stream of datagrams.
unfoldable pub outcome : ℕ → MultiPacketProcessor → List Datagram → Added
unfolding handle
outcome pkid p [] = waiting
outcome pkid p (d ∷ ds) =
    let r = handle d p in
    let rest = outcome pkid r.1 ds in if d.pkid == pkid then first r.0 rest else rest

-- A datagram of the packet carries a fragment of it; no datagram drops the packet from a full map.
pub record IsOf (frags : List (List ℕ)) (pkid : ℕ) (d : Datagram) : Type 0 where
  pub own : d.pkid ≡ pkid → (d.total ≡ length frags) × (get_elem? frags d.num ≡ some d.body)
  pub spared : d.victim ≢ pkid

abbrev pub Occurs : ℕ → ℕ → List Datagram → Type 0
Occurs pkid i [] = ⊥
Occurs pkid i (d ∷ ds) = ((d.pkid ≡ pkid) × (d.num ≡ i)) ⊎ Occurs pkid i ds

find-make_room :
    (j victim : ℕ) (p : MultiPacketProcessor)
    → victim ≢ j
    → find j (make_room victim p).packets ≡ find j p.packets
unfolding make_room
find-make_room j victim p h = ground (arith, find-delete j victim p.packets h)

find-receive :
    (j pkid num : ℕ) (b : List ℕ) (mp : MultiPacket) (p : MultiPacketProcessor)
    → pkid ≢ j
    → find j (receive pkid num b mp p).1.packets ≡ find j p.packets
unfolding receive is_done
find-receive j pkid num b mp p h =
    let next = put_fragment num b mp in
    elim (Bool-cases (leb next.total next.received)) [
      | inl full ↦ rw full (find-delete j pkid p.packets h)
      | inr short ↦ rw short (find-store_other j pkid next p.packets h)
    ]

module _ (d : Datagram) (p : MultiPacketProcessor) where
  pub handle-found :
      (mp : MultiPacket)
      → find d.pkid p.packets ≡ some mp
      → handle d p ≡ receive d.pkid d.num d.body mp p
  unfolding handle add
  handle-found mp e = rw (e, add) refl

  pub handle-new :
      find d.pkid p.packets ≡ none
      → d.total < 2 ^ 15
      → handle d p
        ≡ receive d.pkid d.num d.body
            (new_multi_packet d.total d.obj_hash d.now)
            (make_room d.victim p)
  unfolding handle add
  handle-new e h = rw (e, add) (rw (lt→ltb _ _ h) refl)

  pub handle-crashed :
      find d.pkid p.packets ≡ none → 2 ^ 15 ≤ d.total → handle d p ≡ (crashed, make_room d.victim p)
  unfolding handle add
  handle-crashed e h = rw (e, add) (ground arith)

  -- A datagram of another packet leaves what the map holds of this one.
  find-handle :
      (j : ℕ) → d.pkid ≢ j → d.victim ≢ j → find j (handle d p).1.packets ≡ find j p.packets
  find-handle j h v = elim (Option-cases (find d.pkid p.packets)) [
    | inr (mp, e) ↦ rw (handle-found mp e) (find-receive j d.pkid d.num d.body mp p h)
    | inl e ↦ elim (lt_or_le d.total (2 ^ 15)) [
      | inl l ↦ rw (handle-new e l) (
          find-receive j d.pkid d.num d.body _ (make_room d.victim p) h
          ∙ find-make_room j d.victim p v)
      | inr l ↦ rw (handle-crashed e l) (find-make_room j d.victim p v)
    ]
  ]

module _ (frags : List (List ℕ)) (pkid : ℕ) (small : length frags < 2 ^ 15) where
  new_multi_packet-IsPartOf :
      (total obj_hash now : ℕ)
      → total ≡ length frags
      → IsPartOf frags (new_multi_packet total obj_hash now)
  unfolding new_multi_packet
  new_multi_packet-IsPartOf total obj_hash now e = record {
    total = e;
    held = rw e (Holds-nil_fragments frags);
    counted = sym (count-nil_fragments total);
  }

  own_step :
      (d : Datagram) (p : MultiPacketProcessor) (ds : List Datagram)
      → d.pkid ≡ pkid
      → outcome pkid p (d ∷ ds) ≡ first (handle d p).0 (outcome pkid (handle d p).1 ds)
  unfolding outcome
  own_step d p ds e = ground arith

  other_step :
      (d : Datagram) (p : MultiPacketProcessor) (ds : List Datagram)
      → d.pkid ≢ pkid
      → outcome pkid p (d ∷ ds) ≡ outcome pkid (handle d p).1 ds
  unfolding outcome
  other_step d p ds e = ground arith

  -- What is still to come after the datagram `d`.
  later :
      (d : Datagram) (ds : List Datagram) (i : ℕ)
      → Occurs pkid i (d ∷ ds)
      → (d.pkid ≡ pkid → d.num ≢ i)
      → Occurs pkid i ds
  later d ds i (inl (k, e)) h = absurd (h k e)
  later d ds i (inr o) h = o

  -- After a datagram of the packet: it is done, or the rest of the stream goes on with what is held.
  after_own :
      (d : Datagram) (ds : List Datagram) (p : MultiPacketProcessor) (mp : MultiPacket)
      → d.pkid ≡ pkid
      → Progress frags pkid d.num mp (handle d p)
      → ((i : ℕ) → IsMissing mp i → Occurs pkid i (d ∷ ds))
      → ((q : MultiPacketProcessor) (next : MultiPacket)
          → find pkid q.packets ≡ some next
          → IsPartOf frags next
          → count next.fragments < length frags
          → ((i : ℕ) → IsMissing next i → Occurs pkid i ds)
          → outcome pkid q ds ≡ done (concat frags))
      → outcome pkid p (d ∷ ds) ≡ done (concat frags)
  after_own d ds p mp own (inl e) come go = rw (own_step d p ds own) (rw e refl)
  after_own d ds p mp own (inr (next, e, found, part, short, fewer)) come go =
      rw (own_step d p ds own) (
        rw e (
          go (handle d p).1 next found part short
            (λ i m. later d ds i (come i (fewer i m).0) (λ k. (fewer i m).1))))

  -- Every missing fragment of the packet in the map is still to come.
  outcome-held :
      (ds : List Datagram) (p : MultiPacketProcessor) (mp : MultiPacket)
      → All (IsOf frags pkid) ds
      → find pkid p.packets ≡ some mp
      → IsPartOf frags mp
      → count mp.fragments < length frags
      → ((i : ℕ) → IsMissing mp i → Occurs pkid i ds)
      → outcome pkid p ds ≡ done (concat frags)
  outcome-held [] p mp h e part short come =
      let (i, m) =
        missing_exists mp.fragments (omega (arith, Holds-length frags mp.fragments part.held)) in
      absurd (come i m)
  outcome-held (d ∷ ds) p mp h e part short come = elim (eq_or_ne d.pkid pkid) [
    | inl own ↦
        let step = receive-Progress frags small d.pkid d.num d.body mp p part (h.0.own own).1 in
        after_own d ds p mp own
          (subst (λ k. Progress frags k d.num mp (handle d p)) own
            (rw (handle-found d p mp (cc (own, e))) step))
          come (λ q next. outcome-held ds q next h.1)
    | inr other ↦ rw (other_step d p ds other) (
        outcome-held ds (handle d p).1 mp h.1 (find-handle d p pkid other h.0.spared ∙ e) part short
          (λ i m. later d ds i (come i m) (λ k. absurd (other k))))
  ]

  -- The packet is not in the map, and all its fragments are still to come.
  outcome-fresh :
      (ds : List Datagram) (p : MultiPacketProcessor)
      → All (IsOf frags pkid) ds
      → find pkid p.packets ≡ none
      → 0 < length frags
      → ((i : ℕ) → i < length frags → Occurs pkid i ds)
      → outcome pkid p ds ≡ done (concat frags)
  outcome-fresh [] p h e some_frag come = absurd (come 0 some_frag)
  outcome-fresh (d ∷ ds) p h e some_frag come = elim (eq_or_ne d.pkid pkid) [
    | inl own ↦
        let (total, frag) = h.0.own own in
        let mp = new_multi_packet d.total d.obj_hash d.now in
        let part = new_multi_packet-IsPartOf d.total d.obj_hash d.now total in
        let step =
          receive-Progress frags small d.pkid d.num d.body mp (make_room d.victim p) part frag in
        after_own d ds p mp own
          (subst (λ k. Progress frags k d.num mp (handle d p)) own
            (rw (handle-new d p (cc (own, e)) (omega arith)) step))
          (λ i m. come i (
            omega (
              arith,
              get_elem?-lt mp.fragments i none m,
              Holds-length frags mp.fragments part.held,
            )))
          (λ q next. outcome-held ds q next h.1)
    | inr other ↦ rw (other_step d p ds other) (
        outcome-fresh ds (handle d p).1 h.1 (find-handle d p pkid other h.0.spared ∙ e) some_frag
          (λ i l. later d ds i (come i l) (λ k. absurd (other k))))
  ]

-- A packet of fewer than 2^15 fragments that is not in the map yet, and a stream of datagrams in
-- which each of its fragments occurs, in any order and any number of times, among arbitrary
-- datagrams of other packets that do not push it out of the full map: the first thing but nil that
-- Add returns for the packet is the concatenation of its fragments.
pub add_reassembles :
    (frags : List (List ℕ)) (pkid : ℕ) (ds : List Datagram) (p : MultiPacketProcessor)
    → 0 < length frags
    → length frags < 2 ^ 15
    → All (IsOf frags pkid) ds
    → find pkid p.packets ≡ none
    → ((i : ℕ) → i < length frags → Occurs pkid i ds)
    → outcome pkid p ds ≡ done (concat frags)
add_reassembles frags pkid ds p l small h e come = outcome-fresh frags pkid small ds p h e l come
