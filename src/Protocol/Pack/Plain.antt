-- ===== src/Protocol/Pack/Plain.antt =====
-- The packs of internal/protocol/pack without values: TextPack, StackPack, XLogProfilePack,
-- XLogProfilePack2, SpanContainerPack, DroppedXLogPack.
use scouter_server_go.Common.{ℕ, Bool, List}
use scouter_server_go.Protocol.Word.{IsI32, IsI64, i64_of_i32}
use scouter_server_go.Protocol.Output.{
  Writer, ◌⨾◌, write_byte, write_boolean, write_int32, write_int64, write_decimal, write_blob,
  write_text,
}
use scouter_server_go.Protocol.Input.{
  Reader, return, ◌>>=◌, read_byte, read_boolean, read_int32, read_int64, read_decimal,
  read_decimal32, read_blob, read_text,
}
use scouter_server_go.Protocol.Codec.{RoundTrips, RoundTrips-seq, RoundTrips-last}
use scouter_server_go.Protocol.WordCodec.{
  RoundTrips-byte, RoundTrips-boolean, RoundTrips-int32, RoundTrips-int64,
}
use scouter_server_go.Protocol.DecimalCodec.{RoundTrips-decimal, RoundTrips-decimal32}
use scouter_server_go.Protocol.SliceCodec.{IsBlob, RoundTrips-blob, RoundTrips-text}

pub record TextPack : Type 0 where
  pub xtype : List ℕ
  pub hash : ℕ
  pub text : List ℕ

unfoldable pub write_text_pack : TextPack → Writer
write_text_pack s = write_text s.xtype ⨾ write_int32 s.hash ⨾ write_text s.text

unfoldable pub read_text_pack : Reader TextPack
read_text_pack = do
  xtype ← read_text
  hash ← read_int32
  text ← read_text
  return (record { xtype = xtype; hash = hash; text = text })

pub record IsTextPack (s : TextPack) : Type 0 where
  pub xtype : IsBlob s.xtype
  pub hash : IsI32 s.hash
  pub text : IsBlob s.text

pub RoundTrips-text_pack :
    (s : TextPack) → IsTextPack s → RoundTrips (write_text_pack s) read_text_pack s
unfolding write_text_pack read_text_pack
RoundTrips-text_pack s v = RoundTrips-seq _ (RoundTrips-text s.xtype v.xtype) (
    RoundTrips-seq _ (RoundTrips-int32 s.hash v.hash)
      (RoundTrips-last _ (RoundTrips-text s.text v.text)))

pub record StackPack : Type 0 where
  pub time : ℕ
  pub obj_hash : ℕ
  pub data_bytes : List ℕ

unfoldable pub write_stack_pack : StackPack → Writer
write_stack_pack s =
    write_decimal s.time ⨾ write_decimal (i64_of_i32 s.obj_hash) ⨾ write_blob s.data_bytes

unfoldable pub read_stack_pack : Reader StackPack
read_stack_pack = do
  time ← read_decimal
  obj_hash ← read_decimal32
  data_bytes ← read_blob
  return (record { time = time; obj_hash = obj_hash; data_bytes = data_bytes })

pub record IsStackPack (s : StackPack) : Type 0 where
  pub time : IsI64 s.time
  pub obj_hash : IsI32 s.obj_hash
  pub data_bytes : IsBlob s.data_bytes

pub RoundTrips-stack_pack :
    (s : StackPack) → IsStackPack s → RoundTrips (write_stack_pack s) read_stack_pack s
unfolding write_stack_pack read_stack_pack
RoundTrips-stack_pack s v = RoundTrips-seq _ (RoundTrips-decimal s.time v.time) (
    RoundTrips-seq _ (RoundTrips-decimal32 s.obj_hash v.obj_hash)
      (RoundTrips-last _ (RoundTrips-blob s.data_bytes v.data_bytes)))

pub record XlogProfilePack : Type 0 where
  pub time : ℕ
  pub obj_hash : ℕ
  pub service : ℕ
  pub txid : ℕ
  pub profile : List ℕ

unfoldable pub write_xlog_profile_pack : XlogProfilePack → Writer
write_xlog_profile_pack s =
    write_decimal s.time
    ⨾ write_decimal (i64_of_i32 s.obj_hash)
    ⨾ write_decimal (i64_of_i32 s.service)
    ⨾ write_int64 s.txid
    ⨾ write_blob s.profile

unfoldable pub read_xlog_profile_pack : Reader XlogProfilePack
read_xlog_profile_pack = do
  time ← read_decimal
  obj_hash ← read_decimal32
  service ← read_decimal32
  txid ← read_int64
  profile ← read_blob
  return (record {
    time = time;
    obj_hash = obj_hash;
    service = service;
    txid = txid;
    profile = profile;
  })

pub record IsXlogProfilePack (s : XlogProfilePack) : Type 0 where
  pub time : IsI64 s.time
  pub obj_hash : IsI32 s.obj_hash
  pub service : IsI32 s.service
  pub txid : IsI64 s.txid
  pub profile : IsBlob s.profile

pub RoundTrips-xlog_profile_pack :
    (s : XlogProfilePack)
    → IsXlogProfilePack s
    → RoundTrips (write_xlog_profile_pack s) read_xlog_profile_pack s
unfolding write_xlog_profile_pack read_xlog_profile_pack
RoundTrips-xlog_profile_pack s v = RoundTrips-seq _ (RoundTrips-decimal s.time v.time) (
    RoundTrips-seq _ (RoundTrips-decimal32 s.obj_hash v.obj_hash) (
      RoundTrips-seq _ (RoundTrips-decimal32 s.service v.service) (
        RoundTrips-seq _ (RoundTrips-int64 s.txid v.txid)
          (RoundTrips-last _ (RoundTrips-blob s.profile v.profile)))))

pub record XlogProfilePack2 : Type 0 where
  pub base : XlogProfilePack
  pub gxid : ℕ
  pub xtype : ℕ
  pub discard_type : ℕ
  pub ignore_global_consequent_sampling : Bool

unfoldable pub write_xlog_profile_pack2 : XlogProfilePack2 → Writer
write_xlog_profile_pack2 s =
    write_xlog_profile_pack s.base
    ⨾ write_int64 s.gxid
    ⨾ write_byte s.xtype
    ⨾ write_byte s.discard_type
    ⨾ write_boolean s.ignore_global_consequent_sampling

unfoldable pub read_xlog_profile_pack2 : Reader XlogProfilePack2
read_xlog_profile_pack2 = do
  base ← read_xlog_profile_pack
  gxid ← read_int64
  xtype ← read_byte
  discard_type ← read_byte
  ignore_global_consequent_sampling ← read_boolean
  return (record {
    base = base;
    gxid = gxid;
    xtype = xtype;
    discard_type = discard_type;
    ignore_global_consequent_sampling = ignore_global_consequent_sampling;
  })

pub record IsXlogProfilePack2 (s : XlogProfilePack2) : Type 0 where
  pub base : IsXlogProfilePack s.base
  pub gxid : IsI64 s.gxid

pub RoundTrips-xlog_profile_pack2 :
    (s : XlogProfilePack2)
    → IsXlogProfilePack2 s
    → RoundTrips (write_xlog_profile_pack2 s) read_xlog_profile_pack2 s
unfolding write_xlog_profile_pack2 read_xlog_profile_pack2
RoundTrips-xlog_profile_pack2 s v = RoundTrips-seq _ (RoundTrips-xlog_profile_pack s.base v.base) (
    RoundTrips-seq _ (RoundTrips-int64 s.gxid v.gxid) (
      RoundTrips-seq _ (RoundTrips-byte s.xtype) (
        RoundTrips-seq _ (RoundTrips-byte s.discard_type)
          (RoundTrips-last _ (RoundTrips-boolean s.ignore_global_consequent_sampling)))))

pub record SpanContainerPack : Type 0 where
  pub gxid : ℕ
  pub span_count : ℕ
  pub timestamp : ℕ
  pub spans : List ℕ

unfoldable pub write_span_container_pack : SpanContainerPack → Writer
write_span_container_pack s =
    write_int64 s.gxid
    ⨾ write_decimal (i64_of_i32 s.span_count)
    ⨾ write_int64 s.timestamp
    ⨾ write_blob s.spans

unfoldable pub read_span_container_pack : Reader SpanContainerPack
read_span_container_pack = do
  gxid ← read_int64
  span_count ← read_decimal32
  timestamp ← read_int64
  spans ← read_blob
  return (record { gxid = gxid; span_count = span_count; timestamp = timestamp; spans = spans })

pub record IsSpanContainerPack (s : SpanContainerPack) : Type 0 where
  pub gxid : IsI64 s.gxid
  pub span_count : IsI32 s.span_count
  pub timestamp : IsI64 s.timestamp
  pub spans : IsBlob s.spans

pub RoundTrips-span_container_pack :
    (s : SpanContainerPack)
    → IsSpanContainerPack s
    → RoundTrips (write_span_container_pack s) read_span_container_pack s
unfolding write_span_container_pack read_span_container_pack
RoundTrips-span_container_pack s v = RoundTrips-seq _ (RoundTrips-int64 s.gxid v.gxid) (
    RoundTrips-seq _ (RoundTrips-decimal32 s.span_count v.span_count) (
      RoundTrips-seq _ (RoundTrips-int64 s.timestamp v.timestamp)
        (RoundTrips-last _ (RoundTrips-blob s.spans v.spans))))

pub record DroppedXlogPack : Type 0 where
  pub gxid : ℕ
  pub txid : ℕ

unfoldable pub write_dropped_xlog_pack : DroppedXlogPack → Writer
write_dropped_xlog_pack s = write_int64 s.gxid ⨾ write_int64 s.txid

unfoldable pub read_dropped_xlog_pack : Reader DroppedXlogPack
read_dropped_xlog_pack = do
  gxid ← read_int64
  txid ← read_int64
  return (record { gxid = gxid; txid = txid })

pub record IsDroppedXlogPack (s : DroppedXlogPack) : Type 0 where
  pub gxid : IsI64 s.gxid
  pub txid : IsI64 s.txid

pub RoundTrips-dropped_xlog_pack :
    (s : DroppedXlogPack)
    → IsDroppedXlogPack s
    → RoundTrips (write_dropped_xlog_pack s) read_dropped_xlog_pack s
unfolding write_dropped_xlog_pack read_dropped_xlog_pack
RoundTrips-dropped_xlog_pack s v =
    RoundTrips-seq _ (RoundTrips-int64 s.gxid v.gxid)
      (RoundTrips-last _ (RoundTrips-int64 s.txid v.txid))
