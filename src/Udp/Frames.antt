-- ===== src/Udp/Frames.antt =====
-- The three kinds of datagrams that agents send, through process of internal/netio/udp/processor.go.
use scouter_server_go.Common.{
  ℕ, suc, ◌^◌, ◌<◌, lt→ltb, ◌≡◌, refl, ap, sym, ◌∙◌, ◌⊎◌, List, [], ◌∷◌, ◌++◌, map, append-nil,
  append_assoc, length, drop, All, arith,
}
use scouter_server_go.Protocol.Word.{IsI16, IsI32, IsI64}
use scouter_server_go.Protocol.Output.{
  DataOutputX, Writer, ◌⨾◌, new_output, write, write_int16, write_int32, write_int64, write_blob,
  write_each,
}
use scouter_server_go.Protocol.Input.{DataInputX, ok, Reader, new_input, advance, read_int32}
use scouter_server_go.Protocol.Codec.{
  RoundTrips, RoundTrips-seq, RoundTrips-last, Appends, Appends-none, Appends-seq,
  RoundTrips-Appends, drop-advance,
}
use scouter_server_go.Protocol.WordCodec.{RoundTrips-int16, RoundTrips-int32, RoundTrips-int64}
use scouter_server_go.Protocol.SliceCodec.{IsBlob, RoundTrips-blob}
use scouter_server_go.Protocol.Pack.Union.{Pack, write_pack}
use scouter_server_go.Protocol.Pack.RoundTrip.{IsPack, erase_pack, RoundTrips-pack}
use scouter_server_go.Udp.Multipacket.{MultiPacketProcessor, done, add}
use scouter_server_go.Udp.Datagrams.{
  udp_cafe, udp_cafe_n, udp_cafe_mtu, udp_java, udp_java_n, udp_java_mtu, read_next, process_cafe,
  read_many, process_cafe_n, Fragment, read_fragment, packs_of, process_cafe_mtu, process,
}

-- The bytes that `w` writes to a new buffer.
unfoldable pub datagram : Writer → List ℕ
unfolding new_output
datagram w = (w new_output).buf

datagram_lem : {w : Writer} (s : Appends w) → datagram w ≡ s.bytes
unfolding datagram write
datagram_lem s = ap (λ (o : DataOutputX). o.buf) (s.writes new_output)

-- A header that is read from the start of a datagram, and what stands behind it.
read_header {ℓ} :
    {A : Type ℓ} {w v : Writer} {r : Reader A} {a : A} (q : RoundTrips w r a) (s : Appends v)
    → (e : DataInputX) × (r (new_input (datagram (w ⨾ v))) ≡ ok (a, e))
      × (e.buf ≡ datagram (w ⨾ v))
      × (drop e.offset e.buf ≡ s.bytes ++ [])
unfolding new_input advance Appends-seq RoundTrips-Appends
read_header {w = w} {v} q s =
    let d = new_input (datagram (w ⨾ v)) in
    let at : drop d.offset d.buf ≡ q.bytes ++ (s.bytes ++ []) =
      datagram_lem (Appends-seq (RoundTrips-Appends q) s)
      ∙ ap (λ x. q.bytes ++ x) (sym (append-nil s.bytes)) in
    (
      advance d (length q.bytes),
      q.reads d (s.bytes ++ []) at,
      refl,
      drop-advance d q.bytes (s.bytes ++ []) at,
    )

Appends-packs : (f : ℕ) (ps : List Pack) → All (IsPack f) ps → Appends (write_each write_pack ps)
unfolding write_each
Appends-packs f [] v = Appends-none
Appends-packs f (p ∷ ps) v =
    Appends-seq (RoundTrips-Appends (RoundTrips-pack f p v.0)) (Appends-packs f ps v.1)

-- The loop reads the packs that stand at the offset.
read_many-packs :
    (f : ℕ) (ps : List Pack) (v : All (IsPack f) ps) (d : DataInputX) (rest : List ℕ)
    → suc (length d.buf) ≡ f
    → drop d.offset d.buf ≡ (Appends-packs f ps v).bytes ++ rest
    → read_many (length ps) d ≡ map erase_pack ps
unfolding read_many Appends-none Appends-packs Appends-seq RoundTrips-Appends read_next advance
read_many-packs f [] v d rest h at = refl
read_many-packs f (p ∷ ps) v d rest h at =
    let q = RoundTrips-pack f p v.0 in
    let tail = (Appends-packs f ps v.1).bytes in
    let at' = at ∙ append_assoc q.bytes tail rest in
    let step : read_next d ≡ ok (erase_pack p, advance d (length q.bytes)) =
      rw h (q.reads d (tail ++ rest) at') in
    rw (step, read_many)
      (ap (◌∷◌ (erase_pack p)) (
        read_many-packs f ps v.1 (advance d (length q.bytes)) rest h
          (drop-advance d q.bytes (tail ++ rest) at')))

process_cafe-pack :
    (f : ℕ) (p : Pack) (v : IsPack f p) (d : DataInputX) (rest : List ℕ)
    → suc (length d.buf) ≡ f
    → drop d.offset d.buf ≡ (RoundTrips-pack f p v).bytes ++ rest
    → process_cafe d ≡ erase_pack p ∷ []
unfolding process_cafe read_next
process_cafe-pack f p v d rest h at =
    let q = RoundTrips-pack f p v in
    let step : read_next d ≡ ok (erase_pack p, advance d (length q.bytes)) =
      rw h (q.reads d rest at) in
    rw (step, process_cafe) refl

process_cafe_n-packs :
    (f : ℕ) (ps : List Pack) (v : All (IsPack f) ps) (small : length ps < 2 ^ 15) (d : DataInputX)
    (rest : List ℕ)
    → suc (length d.buf) ≡ f
    → drop d.offset d.buf
      ≡ ((RoundTrips-int16 (length ps) (omega arith)).bytes ++ (Appends-packs f ps v).bytes) ++ rest
    → process_cafe_n d ≡ map erase_pack ps
unfolding process_cafe_n advance
process_cafe_n-packs f ps v small d rest h at =
    let q = RoundTrips-int16 (length ps) (omega arith) in
    let tail = (Appends-packs f ps v).bytes in
    let at' = at ∙ append_assoc q.bytes tail rest in
    rw (q.reads d (tail ++ rest) at', process_cafe_n)
      (rw (lt→ltb _ _ small) (
        read_many-packs f ps v (advance d (length q.bytes)) rest h
          (drop-advance d q.bytes (tail ++ rest) at')))

module _ (now victim : ℕ) (st : MultiPacketProcessor) where
  -- What `process` does for each magic number.
  process-cafe :
      (cafe : ℕ) (bytes : List ℕ) (d : DataInputX)
      → (cafe ≡ udp_cafe) ⊎ (cafe ≡ udp_java)
      → read_int32 (new_input bytes) ≡ ok (cafe, d)
      → process now victim bytes st ≡ (process_cafe d, st)
  unfolding process
  process-cafe cafe bytes d h e = rw (e, process) (ground arith)

  process-cafe_n :
      (cafe : ℕ) (bytes : List ℕ) (d : DataInputX)
      → (cafe ≡ udp_cafe_n) ⊎ (cafe ≡ udp_java_n)
      → read_int32 (new_input bytes) ≡ ok (cafe, d)
      → process now victim bytes st ≡ (process_cafe_n d, st)
  unfolding process
  process-cafe_n cafe bytes d h e = rw (e, process) (ground arith)

  process-cafe_mtu :
      (cafe : ℕ) (bytes : List ℕ) (d : DataInputX)
      → (cafe ≡ udp_cafe_mtu) ⊎ (cafe ≡ udp_java_mtu)
      → read_int32 (new_input bytes) ≡ ok (cafe, d)
      → process now victim bytes st ≡ process_cafe_mtu now victim d st
  unfolding process
  process-cafe_mtu cafe bytes d h e = rw (e, process) (ground arith)

-- A datagram with the magic CAFE or JAVA and a valid pack makes the server dispatch that pack (with
-- its nil pointers and values as ReadPack gives them) and nothing else.
pub process-pack :
    (now victim cafe : ℕ) (p : Pack) (st : MultiPacketProcessor)
    → (cafe ≡ udp_cafe) ⊎ (cafe ≡ udp_java)
    → IsPack (suc (length (datagram (write_int32 cafe ⨾ write_pack p)))) p
    → process now victim (datagram (write_int32 cafe ⨾ write_pack p)) st ≡ (erase_pack p ∷ [], st)
unfolding RoundTrips-Appends
process-pack now victim cafe p st h v =
    let b = datagram (write_int32 cafe ⨾ write_pack p) in
    let q = RoundTrips-pack (suc (length b)) p v in
    let (e, read, same, at) =
      read_header (RoundTrips-int32 cafe (ground arith)) (RoundTrips-Appends q) in
    process-cafe now victim st cafe b e h read
    ∙ ap (λ x. (x, st))
        (process_cafe-pack (suc (length b)) p v e [] (ap (λ x. suc (length x)) same) at)

-- A datagram with the magic CAFN or JAVN, a count below 2^15 and as many valid packs makes the
-- server dispatch these packs (with their nil pointers and values as ReadPack gives them) in their order and nothing
-- else.
pub process-packs :
    (now victim cafe : ℕ) (ps : List Pack) (st : MultiPacketProcessor)
    → (cafe ≡ udp_cafe_n) ⊎ (cafe ≡ udp_java_n)
    → length ps < 2 ^ 15
    → All
        (IsPack (
          suc (
            length
              (datagram (write_int32 cafe ⨾ write_int16 (length ps) ⨾ write_each write_pack ps)))))
        ps
    → process now victim
        (datagram (write_int32 cafe ⨾ write_int16 (length ps) ⨾ write_each write_pack ps))
        st
      ≡ (map erase_pack ps, st)
unfolding Appends-seq RoundTrips-Appends
process-packs now victim cafe ps st h small v =
    let b = datagram (write_int32 cafe ⨾ write_int16 (length ps) ⨾ write_each write_pack ps) in
    let q = RoundTrips-int16 (length ps) (omega arith) in
    let s = Appends-seq (RoundTrips-Appends q) (Appends-packs (suc (length b)) ps v) in
    let (e, read, same, at) = read_header (RoundTrips-int32 cafe (ground arith)) s in
    process-cafe_n now victim st cafe b e h read
    ∙ ap (λ x. (x, st))
        (process_cafe_n-packs (suc (length b)) ps v small e [] (ap (λ x. suc (length x)) same) at)

-- A fragment as the agents write it.
unfoldable pub write_fragment : Fragment → Writer
write_fragment f =
    write_int32 f.obj_hash
    ⨾ write_int64 f.pkid
    ⨾ write_int16 f.total
    ⨾ write_int16 f.num
    ⨾ write_blob f.body

pub record IsFragment (f : Fragment) : Type 0 where
  pub obj_hash : IsI32 f.obj_hash
  pub pkid : IsI64 f.pkid
  pub total : IsI16 f.total
  pub num : IsI16 f.num
  pub body : IsBlob f.body

RoundTrips-fragment : (f : Fragment) → IsFragment f → RoundTrips (write_fragment f) read_fragment f
unfolding write_fragment read_fragment
RoundTrips-fragment f v = RoundTrips-seq _ (RoundTrips-int32 f.obj_hash v.obj_hash) (
    RoundTrips-seq _ (RoundTrips-int64 f.pkid v.pkid) (
      RoundTrips-seq _ (RoundTrips-int16 f.total v.total) (
        RoundTrips-seq _ (RoundTrips-int16 f.num v.num)
          (RoundTrips-last _ (RoundTrips-blob f.body v.body)))))

process_cafe_mtu-fragment :
    (now victim : ℕ) (f : Fragment) (d e : DataInputX) (st : MultiPacketProcessor)
    → read_fragment d ≡ ok (f, e)
    → process_cafe_mtu now victim d st
      ≡ (let r = add f.pkid f.total f.num f.body f.obj_hash now victim st in (packs_of r.0, r.1))
unfolding process_cafe_mtu
process_cafe_mtu-fragment now victim f d e st read = rw (read, process_cafe_mtu) refl

-- A datagram with the magic CAFM or JMTU and a valid fragment goes to Add with the fields of the
-- fragment, and the server dispatches what Add gives back.
pub process-fragment :
    (now victim cafe : ℕ) (f : Fragment) (st : MultiPacketProcessor)
    → (cafe ≡ udp_cafe_mtu) ⊎ (cafe ≡ udp_java_mtu)
    → IsFragment f
    → process now victim (datagram (write_int32 cafe ⨾ write_fragment f)) st
      ≡ (let r = add f.pkid f.total f.num f.body f.obj_hash now victim st in (packs_of r.0, r.1))
unfolding RoundTrips-Appends
process-fragment now victim cafe f st h v =
    let b = datagram (write_int32 cafe ⨾ write_fragment f) in
    let q = RoundTrips-fragment f v in
    let (e, read, same, at) =
      read_header (RoundTrips-int32 cafe (ground arith)) (RoundTrips-Appends q) in
    process-cafe_mtu now victim st cafe b e h read
    ∙ process_cafe_mtu-fragment now victim f e _ st (q.reads e [] at)

-- The bytes of a valid pack, put together again from its fragments, are dispatched as that pack.
pub packs_of-done :
    (p : Pack)
    → IsPack (suc (length (datagram (write_pack p)))) p
    → packs_of (done (datagram (write_pack p))) ≡ erase_pack p ∷ []
unfolding packs_of new_input RoundTrips-Appends
packs_of-done p v =
    let b = datagram (write_pack p) in
    let q = RoundTrips-pack (suc (length b)) p v in
    process_cafe-pack (suc (length b)) p v (new_input b) [] refl
      (datagram_lem (RoundTrips-Appends q) ∙ sym (append-nil q.bytes))
