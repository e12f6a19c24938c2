-- ===== src/Protocol/Pack/Spans.antt =====
-- SpanPack of internal/protocol/pack/span_pack.go.
use scouter_server_go.Common.{ℕ, Bool, List, Option}
use scouter_server_go.Protocol.Word.{IsI16, IsI32, IsI64, i64_of_i32}
use scouter_server_go.Protocol.Output.{
  Writer, ◌⨾◌, write_byte, write_boolean, write_int16, write_int64, write_decimal, write_blob,
}
use scouter_server_go.Protocol.Input.{
  Reader, return, ◌>>=◌, read_byte, read_boolean, read_int16, read_int64, read_decimal32, read_blob,
}
use scouter_server_go.Protocol.Codec.{RoundTrips, RoundTrips-seq, RoundTrips-last}
use scouter_server_go.Protocol.WordCodec.{
  RoundTrips-byte, RoundTrips-boolean, RoundTrips-int16, RoundTrips-int64,
}
use scouter_server_go.Protocol.DecimalCodec.{RoundTrips-decimal32}
use scouter_server_go.Protocol.SliceCodec.{IsBlob, RoundTrips-blob}
use scouter_server_go.Protocol.Value.{Entries, Values}
use scouter_server_go.Protocol.Pack.Fields.{
  write_map_field, read_map_field, IsMapField, erase_map, RoundTrips-map_field, write_list_field,
  read_list_field, IsListField, erase_list, RoundTrips-list_field,
}

pub record SpanPack : Type 0 where
  pub gxid : ℕ
  pub txid : ℕ
  pub caller : ℕ
  pub timestamp : ℕ
  pub elapsed : ℕ
  pub span_type : ℕ
  pub name : ℕ
  pub obj_hash : ℕ
  pub error : ℕ
  pub local_endpoint_service_name : ℕ
  pub local_endpoint_ip : List ℕ
  pub local_endpoint_port : ℕ
  pub remote_endpoint_service_name : ℕ
  pub remote_endpoint_ip : List ℕ
  pub remote_endpoint_port : ℕ
  pub debug : Bool
  pub shared : Bool
  pub annotation_timestamps : Option Values
  pub annotation_values : Option Values
  pub tags : Option Entries

unfoldable pub write_span_pack : SpanPack → Writer
write_span_pack s =
    write_int64 s.gxid
    ⨾ write_int64 s.txid
    ⨾ write_int64 s.caller
    ⨾ write_int64 s.timestamp
    ⨾ write_decimal (i64_of_i32 s.elapsed)
    ⨾ write_byte s.span_type
    ⨾ write_decimal (i64_of_i32 s.name)
    ⨾ write_decimal (i64_of_i32 s.obj_hash)
    ⨾ write_decimal (i64_of_i32 s.error)
    ⨾ write_decimal (i64_of_i32 s.local_endpoint_service_name)
    ⨾ write_blob s.local_endpoint_ip
    ⨾ write_int16 s.local_endpoint_port
    ⨾ write_decimal (i64_of_i32 s.remote_endpoint_service_name)
    ⨾ write_blob s.remote_endpoint_ip
    ⨾ write_int16 s.remote_endpoint_port
    ⨾ write_boolean s.debug
    ⨾ write_boolean s.shared
    ⨾ write_list_field s.annotation_timestamps
    ⨾ write_list_field s.annotation_values
    ⨾ write_map_field s.tags

unfoldable pub read_span_pack : ℕ → Reader SpanPack
read_span_pack f = do
  gxid ← read_int64
  txid ← read_int64
  caller ← read_int64
  timestamp ← read_int64
  elapsed ← read_decimal32
  span_type ← read_byte
  name ← read_decimal32
  obj_hash ← read_decimal32
  error ← read_decimal32
  local_endpoint_service_name ← read_decimal32
  local_endpoint_ip ← read_blob
  local_endpoint_port ← read_int16
  remote_endpoint_service_name ← read_decimal32
  remote_endpoint_ip ← read_blob
  remote_endpoint_port ← read_int16
  debug ← read_boolean
  shared ← read_boolean
  annotation_timestamps ← read_list_field f
  annotation_values ← read_list_field f
  tags ← read_map_field f
  return (record {
    gxid = gxid;
    txid = txid;
    caller = caller;
    timestamp = timestamp;
    elapsed = elapsed;
    span_type = span_type;
    name = name;
    obj_hash = obj_hash;
    error = error;
    local_endpoint_service_name = local_endpoint_service_name;
    local_endpoint_ip = local_endpoint_ip;
    local_endpoint_port = local_endpoint_port;
    remote_endpoint_service_name = remote_endpoint_service_name;
    remote_endpoint_ip = remote_endpoint_ip;
    remote_endpoint_port = remote_endpoint_port;
    debug = debug;
    shared = shared;
    annotation_timestamps = annotation_timestamps;
    annotation_values = annotation_values;
    tags = tags;
  })

pub record IsSpanPack (f : ℕ) (s : SpanPack) : Type 0 where
  pub gxid : IsI64 s.gxid
  pub txid : IsI64 s.txid
  pub caller : IsI64 s.caller
  pub timestamp : IsI64 s.timestamp
  pub elapsed : IsI32 s.elapsed
  pub name : IsI32 s.name
  pub obj_hash : IsI32 s.obj_hash
  pub error : IsI32 s.error
  pub local_endpoint_service_name : IsI32 s.local_endpoint_service_name
  pub local_endpoint_ip : IsBlob s.local_endpoint_ip
  pub local_endpoint_port : IsI16 s.local_endpoint_port
  pub remote_endpoint_service_name : IsI32 s.remote_endpoint_service_name
  pub remote_endpoint_ip : IsBlob s.remote_endpoint_ip
  pub remote_endpoint_port : IsI16 s.remote_endpoint_port
  pub annotation_timestamps : IsListField f s.annotation_timestamps
  pub annotation_values : IsListField f s.annotation_values
  pub tags : IsMapField f s.tags

-- What comes back: a nil field as an empty one, a nil value as a NullValue.
abbrev pub erase_span_pack : SpanPack → SpanPack
erase_span_pack s = record s {
  annotation_timestamps = erase_list s.annotation_timestamps;
  annotation_values = erase_list s.annotation_values;
  tags = erase_map s.tags;
}

pub RoundTrips-span_pack :
    (f : ℕ) (s : SpanPack)
    → IsSpanPack f s
    → RoundTrips (write_span_pack s) (read_span_pack f) (erase_span_pack s)
unfolding write_span_pack read_span_pack
RoundTrips-span_pack f s v = RoundTrips-seq _ (RoundTrips-int64 s.gxid v.gxid) (
    RoundTrips-seq _ (RoundTrips-int64 s.txid v.txid) (
      RoundTrips-seq _ (RoundTrips-int64 s.caller v.caller) (
        RoundTrips-seq _ (RoundTrips-int64 s.timestamp v.timestamp) (
          RoundTrips-seq _ (RoundTrips-decimal32 s.elapsed v.elapsed) (
            RoundTrips-seq _ (RoundTrips-byte s.span_type) (
              RoundTrips-seq _ (RoundTrips-decimal32 s.name v.name) (
                RoundTrips-seq _ (RoundTrips-decimal32 s.obj_hash v.obj_hash) (
                  RoundTrips-seq _ (RoundTrips-decimal32 s.error v.error) (
                    RoundTrips-seq _
                      (RoundTrips-decimal32 s.local_endpoint_service_name
                        v.local_endpoint_service_name)
                      (RoundTrips-seq _ (RoundTrips-blob s.local_endpoint_ip v.local_endpoint_ip) (
                        RoundTrips-seq _
                          (RoundTrips-int16 s.local_endpoint_port v.local_endpoint_port)
                          (RoundTrips-seq _
                            (RoundTrips-decimal32 s.remote_endpoint_service_name
                              v.remote_endpoint_service_name)
                            (RoundTrips-seq _
                              (RoundTrips-blob s.remote_endpoint_ip v.remote_endpoint_ip)
                              (RoundTrips-seq _
                                (RoundTrips-int16 s.remote_endpoint_port v.remote_endpoint_port)
                                (RoundTrips-seq _ (RoundTrips-boolean s.debug) (
                                  RoundTrips-seq _ (RoundTrips-boolean s.shared) (
                                    RoundTrips-seq _
                                      (RoundTrips-list_field f s.annotation_timestamps
                                        v.annotation_timestamps)
                                      (RoundTrips-seq _
                                        (RoundTrips-list_field f s.annotation_values
                                          v.annotation_values)
                                        (RoundTrips-last _
                                          (RoundTrips-map_field f s.tags v.tags))))))))))))))))))))
