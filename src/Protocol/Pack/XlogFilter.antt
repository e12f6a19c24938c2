-- ===== src/Protocol/Pack/XlogFilter.antt =====
-- ReadXLogFilterFields of internal/protocol/pack/xlog_pack.go: the object and the elapsed time of a
-- serialized XLogPack, without a full parse.
use scouter_server_go.Common.{ℕ, ◌<◌, ◌≡◌, refl, sym, ap, ◌∙◌, List, ◌++◌, length, arith}
use mathlib.Core.Path.{subst, fun_ext}
use scouter_server_go.Protocol.Word.{IsI32, IsI64, i64_of_i32}
use scouter_server_go.Protocol.Output.{
  DataOutputX, Writer, ◌⨾◌, new_output, write, write_int64, write_decimal, write_blob,
}
use scouter_server_go.Protocol.Input.{
  DataInputX, Result, ok, err, panic, stuck, new_input, Reader, return, ◌>>=◌, read_byte,
  read_decimal, read_decimal32, read_blob_ref, read_blob, skip_bytes,
}
use scouter_server_go.Protocol.BlobRef.{read_blob_ref-eq-read_blob}
use scouter_server_go.Protocol.Codec.{
  RoundTrips, RoundTrips-seq, RoundTrips-last, RoundTrips-then, Appends, Appends-seq,
  RoundTrips-Appends,
}
use scouter_server_go.Protocol.WordCodec.{RoundTrips-byte, length-of_drop}
use scouter_server_go.Protocol.DecimalCodec.{RoundTrips-decimal, RoundTrips-decimal32}
use scouter_server_go.Protocol.SliceCodec.{RoundTrips-blob}
use scouter_server_go.Protocol.Pack.Wrapped.{inner_bytes, write_wrapped, read_within, resume}
use scouter_server_go.Protocol.Pack.Xlog.{
  XlogPack, write_xlog_head, write_xlog_tail, write_xlog_pack,
}
use scouter_server_go.Protocol.Pack.XlogCodec.{IsXlogHead, IsXlogPack, RoundTrips-xlog_tail}
use scouter_server_go.Protocol.Pack.Union.{xlog_pack, write_pack, write_pack_body}

unfoldable pub read_filter_head : Reader (ℕ × ℕ)
read_filter_head = do
  _ ← read_decimal
  obj_hash ← read_decimal32
  _ ← read_decimal
  _ ← skip_bytes 24
  elapsed ← read_decimal32
  return (obj_hash, elapsed)

unfoldable pub read_filter : Reader (ℕ × ℕ)
read_filter = do _ ← read_byte; blob ← read_blob_ref; read_within blob read_filter_head

abbrev value_of {ℓ} : {A : Type ℓ} → Result (A × DataInputX) → Result A
value_of (ok (a, _)) = ok a
value_of (err e) = err e
value_of panic = panic
value_of stuck = stuck

unfoldable pub read_xlog_filter_fields : List ℕ → Result (ℕ × ℕ)
unfolding read_filter
read_xlog_filter_fields bytes = value_of (read_filter (new_input bytes))

RoundTrips-skip :
    {w : Writer} (n : ℕ) (p : Appends w)
    → length p.bytes ≡ n
    → 0 < n
    → RoundTrips w (skip_bytes n) tt
unfolding skip_bytes
RoundTrips-skip n p e h = record {
  bytes = p.bytes;
  writes = p.writes;
  reads = λ d rest at. ground (arith, length-of_drop d p.bytes rest at);
}

Appends-int64 : (v : ℕ) → Appends (write_int64 v)
unfolding write_int64 write
Appends-int64 v = record { bytes = _; writes = λ o. refl }

three_longs :
    (a b c : ℕ) → RoundTrips (write_int64 a ⨾ write_int64 b ⨾ write_int64 c) (skip_bytes 24) tt
unfolding Appends-int64 Appends-seq
three_longs a b c =
    RoundTrips-skip 24
      (Appends-seq (Appends-int64 a) (Appends-seq (Appends-int64 b) (Appends-int64 c))) refl
      (omega arith)

-- The writes before the end of what the filter reads, and those behind it.
xlog_prefix : XlogPack → Writer
xlog_prefix s =
    write_decimal s.end_time
    ⨾ write_decimal (i64_of_i32 s.obj_hash)
    ⨾ write_decimal (i64_of_i32 s.service)
    ⨾ (write_int64 s.txid ⨾ write_int64 s.caller ⨾ write_int64 s.gxid)
    ⨾ write_decimal (i64_of_i32 s.elapsed)

xlog_suffix : XlogPack → Writer
xlog_suffix s =
    write_decimal (i64_of_i32 s.error)
    ⨾ write_decimal (i64_of_i32 s.cpu)
    ⨾ write_decimal (i64_of_i32 s.sql_count)
    ⨾ write_decimal (i64_of_i32 s.sql_time)
    ⨾ write_blob s.ip_addr
    ⨾ write_decimal (i64_of_i32 s.kbytes)
    ⨾ write_decimal (i64_of_i32 s.status)
    ⨾ write_decimal s.userid
    ⨾ write_decimal (i64_of_i32 s.user_agent)
    ⨾ write_decimal (i64_of_i32 s.referer)
    ⨾ write_decimal (i64_of_i32 s.group)
    ⨾ write_decimal (i64_of_i32 s.apicall_count)
    ⨾ write_decimal (i64_of_i32 s.apicall_time)

split_writes :
    (s : XlogPack)
    → write_xlog_head s ⨾ write_xlog_tail s ≡ xlog_prefix s ⨾ (xlog_suffix s ⨾ write_xlog_tail s)
unfolding ◌⨾◌ write_xlog_head xlog_prefix xlog_suffix
split_writes s = refl

RoundTrips-prefix :
    (s : XlogPack)
    → IsXlogHead s
    → RoundTrips (xlog_prefix s) read_filter_head (s.obj_hash, s.elapsed)
unfolding xlog_prefix read_filter_head
RoundTrips-prefix s v = RoundTrips-seq _ (RoundTrips-decimal s.end_time v.end_time) (
    RoundTrips-seq _ (RoundTrips-decimal32 s.obj_hash v.obj_hash) (
      RoundTrips-seq _ (RoundTrips-decimal (i64_of_i32 s.service) (wide s.service v.service)) (
        RoundTrips-seq _ (three_longs s.txid s.caller s.gxid)
          (RoundTrips-last _ (RoundTrips-decimal32 s.elapsed v.elapsed)))))
  where
    wide : (x : ℕ) → IsI32 x → IsI64 (i64_of_i32 x)
    wide x h = ground arith

Appends-suffix : (s : XlogPack) → IsXlogHead s → Appends (xlog_suffix s)
unfolding xlog_suffix
Appends-suffix s v = Appends-seq (small s.error v.error) (
    Appends-seq (small s.cpu v.cpu) (
      Appends-seq (small s.sql_count v.sql_count) (
        Appends-seq (small s.sql_time v.sql_time) (
          Appends-seq (RoundTrips-Appends (RoundTrips-blob s.ip_addr v.ip_addr)) (
            Appends-seq (small s.kbytes v.kbytes) (
              Appends-seq (small s.status v.status) (
                Appends-seq (RoundTrips-Appends (RoundTrips-decimal s.userid v.userid)) (
                  Appends-seq (small s.user_agent v.user_agent) (
                    Appends-seq (small s.referer v.referer) (
                      Appends-seq (small s.group v.group) (
                        Appends-seq (small s.apicall_count v.apicall_count)
                          (small s.apicall_time v.apicall_time))))))))))))
  where
    small : (x : ℕ) → IsI32 x → Appends (write_decimal (i64_of_i32 x))
    small x h = RoundTrips-Appends (RoundTrips-decimal32 x h)

-- The filter reads its two fields from the front of the inner blob, and stops there.
filter_inner :
    (s : XlogPack)
    → IsXlogPack s
    → (e : DataInputX) × (read_filter_head
          (new_input (inner_bytes (write_xlog_head s ⨾ write_xlog_tail s)))
        ≡ ok ((s.obj_hash, s.elapsed), e))
unfolding inner_bytes new_input new_output write Appends-seq RoundTrips-Appends
filter_inner s v =
    let p = RoundTrips-prefix s v.head in
    let q =
      Appends-seq (Appends-suffix s v.head) (RoundTrips-Appends (RoundTrips-xlog_tail s v.tail)) in
    let whole = Appends-seq (RoundTrips-Appends p) q in
    let bytes : (((write_xlog_head s ⨾ write_xlog_tail s) new_output).buf) ≡ p.bytes ++ q.bytes =
      ap (λ (w : Writer). (w new_output).buf) (split_writes s)
      ∙ ap (λ (o : DataOutputX). o.buf) (whole.writes new_output) in
    (_, p.reads _ q.bytes bytes)

RoundTrips-blob_ref :
    {w : Writer} {b : List ℕ} → RoundTrips w read_blob b → RoundTrips w read_blob_ref b
RoundTrips-blob_ref {w} {b} p =
    subst (λ r. RoundTrips w r b) (sym (fun_ext read_blob_ref-eq-read_blob)) p

RoundTrips-filter :
    (s : XlogPack)
    → IsXlogPack s
    → RoundTrips (write_pack (xlog_pack s)) read_filter (s.obj_hash, s.elapsed)
unfolding write_pack write_pack_body write_xlog_pack write_wrapped read_filter read_within
RoundTrips-filter s v = RoundTrips-seq _ (RoundTrips-byte 21) (
    RoundTrips-then _ (RoundTrips-blob_ref (RoundTrips-blob _ v.short))
      (λ d. ap (λ x. resume x d) (filter_inner s v).1))

-- On the bytes that WritePack makes of a valid XLogPack, whatever follows them, the filter finds the
-- pack's object hash and elapsed time.
pub read_xlog_filter_fields-write_pack :
    (s : XlogPack) (rest : List ℕ)
    → IsXlogPack s
    → read_xlog_filter_fields ((write_pack (xlog_pack s) new_output).buf ++ rest)
      ≡ ok (s.obj_hash, s.elapsed)
unfolding read_xlog_filter_fields new_output new_input write
read_xlog_filter_fields-write_pack s rest v =
    let p = RoundTrips-filter s v in
    ap value_of (p.reads _ rest (ap (λ (o : DataOutputX). o.buf ++ rest) (p.writes new_output)))
