-- ===== src/Udp/Multipacket.antt =====
-- MultiPacketProcessor of internal/netio/udp/multipacket.go. Each operation holds the lock of the
-- processor, so a run is a sequence of them. Times are nanoseconds.
use scouter_server_go.Common.{
  ℕ, zero, suc, ◌+◌, ◌-◌, ◌^◌, ◌==◌, Bool, true, false, ltb, leb, if◌then◌else◌, ◌&&◌, Option, none,
  some, List, [], ◌∷◌, ◌++◌, length, get_elem?,
}

-- A fragment that has not come is a nil slice: `none`. The body of a fragment comes from ReadBlob and is never nil.
pub record MultiPacket : Type 0 where
  pub total : ℕ
  pub obj_hash : ℕ
  pub fragments : List (Option (List ℕ))
  pub received : ℕ
  pub created : ℕ

-- The map `packets` is an association list without an order that matters.
pub record MultiPacketProcessor : Type 0 where
  pub packets : List (ℕ × MultiPacket)
  pub max_items : ℕ
  pub expiry : ℕ

unfoldable pub new_multi_packet_processor : MultiPacketProcessor
new_multi_packet_processor = record { packets = []; max_items = 1000; expiry = 10000000000 }

unfoldable pub is_done : MultiPacket → Bool
is_done mp = leb mp.total mp.received

-- A nil fragment appends nothing.
unfoldable pub join : List (Option (List ℕ)) → List ℕ
join [] = []
join (none ∷ fs) = join fs
join (some b ∷ fs) = b ++ join fs

unfoldable pub to_bytes : MultiPacket → List ℕ
to_bytes mp = join mp.fragments

unfoldable pub nil_fragments : ℕ → List (Option (List ℕ))
nil_fragments zero = []
nil_fragments (suc n) = none ∷ nil_fragments n

unfoldable pub set_fragment : ℕ → List ℕ → List (Option (List ℕ)) → List (Option (List ℕ))
set_fragment i body [] = []
set_fragment zero body (f ∷ fs) = some body ∷ fs
set_fragment (suc i) body (f ∷ fs) = f ∷ set_fragment i body fs

unfoldable pub find : ℕ → List (ℕ × MultiPacket) → Option MultiPacket
find pkid [] = none
find pkid ((k, mp) ∷ ps) = if k == pkid then some mp else find pkid ps

unfoldable pub delete : ℕ → List (ℕ × MultiPacket) → List (ℕ × MultiPacket)
delete pkid [] = []
delete pkid ((k, mp) ∷ ps) = let rest = delete pkid ps in if k == pkid then rest else (k, mp) ∷ rest

unfoldable pub store : ℕ → MultiPacket → List (ℕ × MultiPacket) → List (ℕ × MultiPacket)
unfolding delete
store pkid mp ps = (pkid, mp) ∷ delete pkid ps

-- `idx >= 0 && idx < mp.total && mp.fragments[idx] == nil`, for the bits of an int16 `num`.
unfoldable pub is_missing : ℕ → MultiPacket → Bool
is_missing num mp =
    ltb num (2 ^ 15)
    && ltb num mp.total
    && elim (get_elem? mp.fragments num) [ some none ↦ true | _ ↦ false ]

unfoldable pub put_fragment : ℕ → List ℕ → MultiPacket → MultiPacket
unfolding is_missing set_fragment
put_fragment num body mp =
    if is_missing num mp
    then record mp { fragments = set_fragment num body mp.fragments; received = mp.received + 1 }
    else mp

-- What `Add` returns: nil, the bytes of the whole packet, or a panic in `make`.
pub data Added : Type 0 where
  waiting : Added
  done : List ℕ → Added
  crashed : Added

-- `victim` is the key that `range` over the map happens to give first when the map is full.
unfoldable pub make_room : ℕ → MultiPacketProcessor → MultiPacketProcessor
unfolding delete
make_room victim p =
    if leb p.max_items (length p.packets) then record p { packets = delete victim p.packets } else p

unfoldable pub new_multi_packet : ℕ → ℕ → ℕ → MultiPacket
unfolding nil_fragments
new_multi_packet total obj_hash now = record {
  total = total;
  obj_hash = obj_hash;
  fragments = nil_fragments total;
  received = 0;
  created = now;
}

-- The part of `Add` that both branches on the key share.
unfoldable pub receive :
    ℕ → ℕ → List ℕ → MultiPacket → MultiPacketProcessor → Added × MultiPacketProcessor
unfolding put_fragment is_done to_bytes delete store
receive pkid num body mp p =
    let filled = put_fragment num body mp in
    if is_done filled
    then (done (to_bytes filled), record p { packets = delete pkid p.packets })
    else (waiting, record p { packets = store pkid filled p.packets })

-- `total` and `num` are the bits of an int16: `make` panics at a negative total.
unfoldable pub add :
    (pkid total num : ℕ)
    → List ℕ
    → (obj_hash now victim : ℕ) → MultiPacketProcessor
    → Added × MultiPacketProcessor
unfolding find make_room new_multi_packet receive
add pkid total num body obj_hash now victim p = elim (find pkid p.packets) [
  | some mp ↦ receive pkid num body mp p
  | none ↦
      if ltb total (2 ^ 15)
      then receive pkid num body (new_multi_packet total obj_hash now) (make_room victim p)
      else (crashed, make_room victim p)
]

unfoldable pub expire : ℕ → ℕ → List (ℕ × MultiPacket) → List (ℕ × MultiPacket)
expire now expiry [] = []
expire now expiry ((k, mp) ∷ ps) =
    let rest = expire now expiry ps in
    if ltb expiry (now - mp.created) then rest else (k, mp) ∷ rest

-- One tick of `cleanupLoop`.
unfoldable pub cleanup : ℕ → MultiPacketProcessor → MultiPacketProcessor
unfolding expire
cleanup now p = record p { packets = expire now p.expiry p.packets }
