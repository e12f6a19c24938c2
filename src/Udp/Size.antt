-- ===== src/Udp/Size.antt =====
-- How many packets MultiPacketProcessor of internal/netio/udp/multipacket.go holds, and for how long.
use scouter_server_go.Common.{
  ℕ, ◌-◌, ◌^◌, ◌≤◌, ◌<◌, ◌≡◌, inl, inr, Bool-cases, leb, some, Option-cases, List, [], ◌∷◌, length,
  All, arith, lt_or_le, lt→ltb, le→ltb,
}
use scouter_server_go.Udp.Multipacket.{
  MultiPacket, MultiPacketProcessor, is_done, find, delete, store, make_room, put_fragment, receive,
  expire, cleanup,
}
use scouter_server_go.Udp.Stream.{Datagram, handle, handle-found, handle-new, handle-crashed}

length-delete : (k : ℕ) (ps : List (ℕ × MultiPacket)) → length (delete k ps) ≤ length ps
unfolding delete
length-delete k [] = omega arith
length-delete k ((i, mp) ∷ ps) = ground (arith, length-delete k ps)

length-delete_found :
    (k : ℕ) (mp : MultiPacket) (ps : List (ℕ × MultiPacket))
    → find k ps ≡ some mp
    → length (delete k ps) < length ps
unfolding delete find
length-delete_found k mp [] e = cc
length-delete_found k mp ((i, np) ∷ ps) e =
    ground (arith, length-delete k ps, length-delete_found k mp ps)

-- A map that is not over its limit, and a victim that is in the map when it is full.
pub record IsWithin (d : Datagram) (p : MultiPacketProcessor) : Type 0 where
  pub bounded : length p.packets ≤ p.max_items
  pub in_map :
      length p.packets ≡ p.max_items → (mp : MultiPacket) × (find d.victim p.packets ≡ some mp)
  pub room : 0 < p.max_items

length-make_room :
    (d : Datagram) (p : MultiPacketProcessor)
    → IsWithin d p
    → length (make_room d.victim p).packets < p.max_items
unfolding make_room
length-make_room d p w = elim (lt_or_le (length p.packets) p.max_items) [
  | inl l ↦ ground arith
  | inr g ↦
      let (mp, e) = w.in_map (omega (arith, w.bounded)) in
      ground (arith, length-delete_found d.victim mp p.packets e, w.bounded)
]

max_items-make_room : (v : ℕ) (p : MultiPacketProcessor) → (make_room v p).max_items ≡ p.max_items
unfolding make_room
max_items-make_room v p = ground arith

-- The packet takes the place of its old entry.
length-receive :
    (k num : ℕ) (b : List ℕ) (mp : MultiPacket) (p : MultiPacketProcessor) (n : ℕ)
    → length (delete k p.packets) < n
    → length (receive k num b mp p).1.packets ≤ n
unfolding receive is_done store
length-receive k num b mp p n h =
    let next = put_fragment num b mp in
    elim (Bool-cases (leb next.total next.received)) [
      | inl full ↦ rw full (omega arith)
      | inr short ↦ rw short (omega arith)
    ]

-- Add keeps the number of packets within the limit, whether the packet is new or not, the map full
-- or not, and the total valid or not.
pub length-handle_le :
    (d : Datagram) (p : MultiPacketProcessor)
    → IsWithin d p
    → length (handle d p).1.packets ≤ p.max_items
length-handle_le d p w = elim (Option-cases (find d.pkid p.packets)) [
  | inr (mp, e) ↦ rw (handle-found d p mp e) (
      length-receive d.pkid d.num d.body mp p p.max_items
        (omega (arith, w.bounded, length-delete_found d.pkid mp p.packets e)))
  | inl e ↦ elim (lt_or_le d.total (2 ^ 15)) [
    | inl l ↦ rw (handle-new d p e l) (
        length-receive d.pkid d.num d.body _ (make_room d.victim p) p.max_items (
          omega
            (arith, length-make_room d p w, length-delete d.pkid (make_room d.victim p).packets)))
    | inr g ↦ rw (handle-crashed d p e g) (omega (arith, length-make_room d p w))
  ]
]

abbrev pub IsYoung : ℕ → ℕ → ℕ × MultiPacket → Type 0
IsYoung now expiry (k, mp) = now - mp.created ≤ expiry

expire-IsYoung :
    (now expiry : ℕ) (ps : List (ℕ × MultiPacket)) → All (IsYoung now expiry) (expire now expiry ps)
unfolding expire
expire-IsYoung now expiry [] = tt
expire-IsYoung now expiry ((k, mp) ∷ ps) = elim (lt_or_le expiry (now - mp.created)) [
  | inl l ↦ rw (lt→ltb _ _ l) (expire-IsYoung now expiry ps)
  | inr g ↦ rw (le→ltb _ _ g) (g, expire-IsYoung now expiry ps)
]

find-expire :
    (now expiry k : ℕ) (mp : MultiPacket) (ps : List (ℕ × MultiPacket))
    → find k ps ≡ some mp
    → now - mp.created ≤ expiry
    → find k (expire now expiry ps) ≡ some mp
unfolding expire find
find-expire now expiry k mp [] e y = e
find-expire now expiry k mp ((i, np) ∷ ps) e y = ground (arith, find-expire now expiry k mp ps)

-- A tick of the cleanup leaves no packet older than the expiry, and every packet that is not.
pub cleanup-IsYoung :
    (now : ℕ) (p : MultiPacketProcessor)
    → All (IsYoung now p.expiry) (cleanup now p).packets
      × ((k : ℕ) (mp : MultiPacket)
          → find k p.packets ≡ some mp
          → now - mp.created ≤ p.expiry
          → find k (cleanup now p).packets ≡ some mp)
unfolding cleanup
cleanup-IsYoung now p =
    (expire-IsYoung now p.expiry p.packets, λ k mp e y. find-expire now p.expiry k mp p.packets e y)
