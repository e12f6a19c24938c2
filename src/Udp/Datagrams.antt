-- ===== src/Udp/Datagrams.antt =====
-- NetDataProcessor.process of internal/netio/udp/processor.go: the packs that a datagram makes it
-- dispatch, in order, and the packets that wait for fragments. What it logs is left out.
use scouter_server_go.Common.{
  ℕ, zero, suc, ◌^◌, ◌==◌, ltb, ◌||◌, if◌then◌else◌, List, [], ◌∷◌, length,
}
use scouter_server_go.Protocol.Input.{
  DataInputX, ok, err, panic, stuck, new_input, Reader, return, ◌>>=◌, read_int16, read_int32,
  read_int64, read_blob,
}
use scouter_server_go.Protocol.Pack.Union.{Pack, read_pack}
use scouter_server_go.Udp.Multipacket.{MultiPacketProcessor, Added, waiting, done, crashed, add}

abbrev pub udp_cafe : ℕ
udp_cafe = 1128351301

abbrev pub udp_cafe_n : ℕ
udp_cafe_n = 1128351310

abbrev pub udp_cafe_mtu : ℕ
udp_cafe_mtu = 1128351309

abbrev pub udp_java : ℕ
udp_java = 1245795905

abbrev pub udp_java_n : ℕ
udp_java_n = 1245795918

abbrev pub udp_java_mtu : ℕ
udp_java_mtu = 1246581845

-- ReadPack, with more fuel than the buffer has bytes.
unfoldable pub read_next : Reader Pack
read_next d = read_pack (suc (length d.buf)) d

unfoldable pub process_cafe : DataInputX → List Pack
unfolding read_next
process_cafe d = elim (read_next d) [ ok (pk, _) ↦ pk ∷ [] | err _ ↦ [] | panic ↦ [] | stuck ↦ [] ]

-- The loop dispatches each pack before it reads the next, and ends at the first error.
unfoldable pub read_many : ℕ → DataInputX → List Pack
unfolding read_next
read_many zero d = []
read_many (suc n) d = elim (read_next d) [
  | ok (pk, e) ↦ pk ∷ read_many n e
  | err _ ↦ []
  | panic ↦ []
  | stuck ↦ []
]

-- The count is an int16: a negative one is no iteration.
unfoldable pub process_cafe_n : DataInputX → List Pack
unfolding read_many
process_cafe_n d = elim (read_int16 d) [
  | ok (n, e) ↦ if ltb n (2 ^ 15) then read_many n e else []
  | err _ ↦ []
  | panic ↦ []
  | stuck ↦ []
]

-- The header of a fragment and its bytes.
pub record Fragment : Type 0 where
  pub obj_hash : ℕ
  pub pkid : ℕ
  pub total : ℕ
  pub num : ℕ
  pub body : List ℕ

unfoldable pub read_fragment : Reader Fragment
read_fragment = do
  obj_hash ← read_int32
  pkid ← read_int64
  total ← read_int16
  num ← read_int16
  body ← read_blob
  return (record { obj_hash = obj_hash; pkid = pkid; total = total; num = num; body = body })

-- What is done with the result of `Add`.
unfoldable pub packs_of : Added → List Pack
unfolding process_cafe new_input
packs_of waiting = []
packs_of (done bytes) = process_cafe (new_input bytes)
packs_of crashed = []

unfoldable pub process_cafe_mtu :
    (now victim : ℕ) → DataInputX → MultiPacketProcessor → List Pack × MultiPacketProcessor
unfolding packs_of
process_cafe_mtu now victim d p = elim (read_fragment d) [
  | ok (f, _) ↦
      let r = add f.pkid f.total f.num f.body f.obj_hash now victim p in (packs_of r.0, r.1)
  | err _ ↦ ([], p)
  | panic ↦ ([], p)
  | stuck ↦ ([], p)
]

-- `process`: a panic is recovered from, and what was done before it stays done.
unfoldable pub process :
    (now victim : ℕ) → List ℕ → MultiPacketProcessor → List Pack × MultiPacketProcessor
unfolding new_input process_cafe process_cafe_n process_cafe_mtu
process now victim bytes p = elim (read_int32 (new_input bytes)) [
  | ok (cafe, d) ↦
      if (cafe == udp_cafe) || (cafe == udp_java)
      then (process_cafe d, p)
      else if (cafe == udp_cafe_n) || (cafe == udp_java_n)
      then (process_cafe_n d, p)
      else if (cafe == udp_cafe_mtu) || (cafe == udp_java_mtu)
      then process_cafe_mtu now victim d p
      else ([], p)
  | err _ ↦ ([], p)
  | panic ↦ ([], p)
  | stuck ↦ ([], p)
]
