-- ===== src/Examples/Udp.antt =====
-- The theorems on internal/netio/udp at concrete datagrams.
use scouter_server_go.Common.{
  ℕ, ◌-◌, ◌≤◌, ◌<◌, ◌≡◌, refl, inl, inr, List, [], ◌∷◌, length, All, arith, none, some, zero, suc,
}
use scouter_server_go.Protocol.Output.{
  ◌⨾◌, write_int32, write_int16, write_each, write_none, new_output, write_decimal, write_text,
  write_blob, write, write_byte,
}
use scouter_server_go.Protocol.Value.{
  decimal_value, no_entries, entry_and, write_entries, write_value, write_body,
}
use scouter_server_go.Protocol.Pack.Union.{Pack, map_pack, write_pack, write_pack_body}
use scouter_server_go.Protocol.Pack.RoundTrip.{IsPack}
use scouter_server_go.Udp.Multipacket.{
  MultiPacket, MultiPacketProcessor, new_multi_packet_processor, done, find, cleanup, add,
}
use scouter_server_go.Udp.Stream.{Datagram, outcome, IsOf, Occurs, handle, add_reassembles}
use scouter_server_go.Udp.Size.{IsWithin, IsYoung, length-handle_le, cleanup-IsYoung}
use scouter_server_go.Udp.Datagrams.{
  Fragment, process, packs_of, udp_cafe, udp_cafe_n, udp_java_mtu,
}
use scouter_server_go.Udp.Frames.{
  datagram, write_fragment, process-pack, process-packs, process-fragment, IsFragment,
}
use scouter_server_go.Udp.Dispatch.{fragment_of, dispatched, dispatched-fragments}
use scouter_server_go.Udp.Fragments.{concat}
use scouter_server_go.Protocol.SliceCodec.{IsBlob}
use scouter_server_go.Protocol.Pack.Map.{write_map_pack}

-- Fragment 1 comes first, then one of another packet, then fragment 1 again, then fragment 0.
abbrev second : Datagram
second = record { pkid = 7; total = 2; num = 1; body = 3 ∷ []; obj_hash = 0; now = 0; victim = 0 }

abbrev other : Datagram
other = record { pkid = 8; total = 1; num = 0; body = []; obj_hash = 0; now = 0; victim = 0 }

abbrev start : Datagram
start = record {
  pkid = 7;
  total = 2;
  num = 0;
  body = 1 ∷ 2 ∷ [];
  obj_hash = 0;
  now = 5;
  victim = 0;
}

abbrev stream : List Datagram
stream = second ∷ other ∷ second ∷ start ∷ []

abbrev split : List (List ℕ)
split = (1 ∷ 2 ∷ []) ∷ (3 ∷ []) ∷ []

second-IsOf : IsOf split 7 second
second-IsOf = record { own = λ e. (refl, refl); spared = λ e. omega arith }

stream-All : All (IsOf split 7) stream
stream-All = (
  second-IsOf,
  (
    record { own = λ e. absurd (omega arith); spared = λ e. omega arith },
    (second-IsOf, (record { own = λ e. (refl, refl); spared = λ e. omega arith }, tt)),
  ),
)

stream-Occurs : (i : ℕ) → i < length split → Occurs 7 i stream
stream-Occurs zero h = inr (inr (inr (inl (refl, refl))))
stream-Occurs (suc zero) h = inl (refl, refl)
stream-Occurs (suc (suc i)) h = absurd (omega arith)

add_reassembles_example : outcome 7 new_multi_packet_processor stream ≡ done (1 ∷ 2 ∷ 3 ∷ [])
unfolding new_multi_packet_processor find
add_reassembles_example =
    add_reassembles split 7 stream new_multi_packet_processor (omega arith) (omega arith) stream-All
      refl stream-Occurs

abbrev waiting_packet : MultiPacket
waiting_packet = record {
  total = 2;
  obj_hash = 0;
  fragments = none ∷ none ∷ [];
  received = 0;
  created = 3;
}

-- A map with room for one packet that is full.
abbrev full : MultiPacketProcessor
full = record { packets = (0, waiting_packet) ∷ []; max_items = 1; expiry = 10 }

full-IsWithin : IsWithin second full
unfolding find
full-IsWithin = record {
  bounded = omega arith;
  in_map = λ e. (waiting_packet, refl);
  room = omega arith;
}

length-handle_le_example : length (handle second full).1.packets ≤ 1
length-handle_le_example = length-handle_le second full full-IsWithin

cleanup-IsYoung_example :
    All (IsYoung 20 10) (cleanup 20 full).packets
    × ((k : ℕ) (mp : MultiPacket)
        → find k full.packets ≡ some mp
        → 20 - mp.created ≤ 10
        → find k (cleanup 20 full).packets ≡ some mp)
cleanup-IsYoung_example = cleanup-IsYoung 20 full

abbrev sample : Pack
sample = map_pack (record { table = entry_and (107 ∷ []) (decimal_value 5) no_entries })

sample-IsPack : (n : ℕ) → IsPack (suc n) sample
sample-IsPack n = record {
  count = omega arith;
  valid = (omega arith, omega arith, tt);
  depth = omega arith;
}

process-pack_example :
    process 0 0 (datagram (write_int32 udp_cafe ⨾ write_pack sample)) new_multi_packet_processor
    ≡ (sample ∷ [], new_multi_packet_processor)
process-pack_example =
    process-pack 0 0 udp_cafe sample new_multi_packet_processor (inl refl) (sample-IsPack _)

process-packs_example :
    process 0 0
      (datagram
        (write_int32 udp_cafe_n ⨾ write_int16 2 ⨾ write_each write_pack (sample ∷ sample ∷ [])))
      new_multi_packet_processor
    ≡ (sample ∷ sample ∷ [], new_multi_packet_processor)
process-packs_example =
    process-packs 0 0 udp_cafe_n (sample ∷ sample ∷ []) new_multi_packet_processor (inl refl)
      (omega arith) (sample-IsPack _, (sample-IsPack _, tt))

abbrev fragment : Fragment
fragment = record { obj_hash = 1; pkid = 7; total = 2; num = 1; body = 3 ∷ [] }

process-fragment_example :
    process 0 0
      (datagram (write_int32 udp_java_mtu ⨾ write_fragment fragment))
      new_multi_packet_processor
    ≡ (let r = add 7 2 1 (3 ∷ []) 1 0 0 new_multi_packet_processor in (packs_of r.0, r.1))
process-fragment_example =
    process-fragment 0 0 udp_java_mtu fragment new_multi_packet_processor (inr refl) (record {
      obj_hash = omega arith;
      pkid = omega arith;
      total = omega arith;
      num = omega arith;
      body = omega arith;
    })

-- The bytes of the pack in two fragments, of which the second comes first.
abbrev halves : List (List ℕ)
halves = (10 ∷ 1 ∷ 1 ∷ []) ∷ (1 ∷ 107 ∷ 20 ∷ 1 ∷ 5 ∷ []) ∷ []

halves-cut : concat halves ≡ datagram (write_pack sample)
unfolding datagram new_output write_pack write_pack_body write_map_pack write_entries write_value
    write_body write_decimal write_text write_blob write write_byte ◌⨾◌ write_none
halves-cut = refl

abbrev half : ℕ → List ℕ → Datagram
half i b = record { pkid = 7; total = 2; num = i; body = b; obj_hash = 1; now = 5; victim = 0 }

abbrev halves_stream : List Datagram
halves_stream = half 1 (1 ∷ 107 ∷ 20 ∷ 1 ∷ 5 ∷ []) ∷ half 0 (10 ∷ 1 ∷ 1 ∷ []) ∷ []

half-IsFragment : (i : ℕ) (b : List ℕ) → i < 2 → IsBlob b → IsFragment (fragment_of (half i b))
half-IsFragment i b h v = record {
  obj_hash = omega arith;
  pkid = omega arith;
  total = omega arith;
  num = omega arith;
  body = v;
}

halves-Occurs : (i : ℕ) → i < length halves → Occurs 7 i halves_stream
halves-Occurs zero h = inr (inl (refl, refl))
halves-Occurs (suc zero) h = inl (refl, refl)
halves-Occurs (suc (suc i)) h = absurd (omega arith)

dispatched-fragments_example :
    dispatched udp_java_mtu 7 new_multi_packet_processor halves_stream ≡ sample ∷ []
unfolding new_multi_packet_processor find
dispatched-fragments_example =
    dispatched-fragments udp_java_mtu 7 halves sample halves_stream new_multi_packet_processor
      (inr refl) halves-cut (sample-IsPack _) (omega arith) (omega arith)
      (
        half-IsFragment 1 _ (omega arith) (omega arith),
        (half-IsFragment 0 _ (omega arith) (omega arith), tt),
      )
      (
        record { own = λ e. (refl, refl); spared = λ e. omega arith },
        (record { own = λ e. (refl, refl); spared = λ e. omega arith }, tt),
      )
      refl halves-Occurs
