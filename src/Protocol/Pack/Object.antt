-- ===== src/Protocol/Pack/Object.antt =====
-- AlertPack and ObjectPack of internal/protocol/pack.
use scouter_server_go.Common.{ℕ, Bool, List, Option}
use scouter_server_go.Protocol.Word.{IsI32, IsI64, i64_of_i32}
use scouter_server_go.Protocol.Output.{
  Writer, ◌⨾◌, write_byte, write_boolean, write_int32, write_int64, write_decimal, write_text,
}
use scouter_server_go.Protocol.Input.{
  Reader, return, ◌>>=◌, read_byte, read_boolean, read_int32, read_int64, read_decimal,
  read_decimal32, read_text,
}
use scouter_server_go.Protocol.Codec.{RoundTrips, RoundTrips-seq, RoundTrips-last}
use scouter_server_go.Protocol.WordCodec.{
  RoundTrips-byte, RoundTrips-boolean, RoundTrips-int32, RoundTrips-int64,
}
use scouter_server_go.Protocol.DecimalCodec.{RoundTrips-decimal, RoundTrips-decimal32}
use scouter_server_go.Protocol.SliceCodec.{IsBlob, RoundTrips-text}
use scouter_server_go.Protocol.Value.{Entries}
use scouter_server_go.Protocol.Pack.Fields.{
  write_map_field, write_alert_tags, read_map_field, IsMapField, erase_map, RoundTrips-map_field,
  RoundTrips-alert_tags,
}

pub record AlertPack : Type 0 where
  pub time : ℕ
  pub level : ℕ
  pub obj_type : List ℕ
  pub obj_hash : ℕ
  pub title : List ℕ
  pub message : List ℕ
  pub tags : Option Entries

unfoldable pub write_alert_pack : AlertPack → Writer
write_alert_pack s =
    write_int64 s.time
    ⨾ write_byte s.level
    ⨾ write_text s.obj_type
    ⨾ write_int32 s.obj_hash
    ⨾ write_text s.title
    ⨾ write_text s.message
    ⨾ write_alert_tags s.tags

unfoldable pub read_alert_pack : ℕ → Reader AlertPack
read_alert_pack f = do
  time ← read_int64
  level ← read_byte
  obj_type ← read_text
  obj_hash ← read_int32
  title ← read_text
  message ← read_text
  tags ← read_map_field f
  return (record {
    time = time;
    level = level;
    obj_type = obj_type;
    obj_hash = obj_hash;
    title = title;
    message = message;
    tags = tags;
  })

pub record IsAlertPack (f : ℕ) (s : AlertPack) : Type 0 where
  pub time : IsI64 s.time
  pub obj_type : IsBlob s.obj_type
  pub obj_hash : IsI32 s.obj_hash
  pub title : IsBlob s.title
  pub message : IsBlob s.message
  pub tags : IsMapField f s.tags

-- What comes back: a nil field as an empty one, a nil value as a NullValue.
abbrev pub erase_alert_pack : AlertPack → AlertPack
erase_alert_pack s = record s { tags = erase_map s.tags }

pub RoundTrips-alert_pack :
    (f : ℕ) (s : AlertPack)
    → IsAlertPack f s
    → RoundTrips (write_alert_pack s) (read_alert_pack f) (erase_alert_pack s)
unfolding write_alert_pack read_alert_pack
RoundTrips-alert_pack f s v = RoundTrips-seq _ (RoundTrips-int64 s.time v.time) (
    RoundTrips-seq _ (RoundTrips-byte s.level) (
      RoundTrips-seq _ (RoundTrips-text s.obj_type v.obj_type) (
        RoundTrips-seq _ (RoundTrips-int32 s.obj_hash v.obj_hash) (
          RoundTrips-seq _ (RoundTrips-text s.title v.title) (
            RoundTrips-seq _ (RoundTrips-text s.message v.message)
              (RoundTrips-last _ (RoundTrips-alert_tags f s.tags v.tags)))))))

pub record ObjectPack : Type 0 where
  pub obj_type : List ℕ
  pub obj_hash : ℕ
  pub obj_name : List ℕ
  pub address : List ℕ
  pub version : List ℕ
  pub alive : Bool
  pub wakeup : ℕ
  pub tags : Option Entries

unfoldable pub write_object_pack : ObjectPack → Writer
write_object_pack s =
    write_text s.obj_type
    ⨾ write_decimal (i64_of_i32 s.obj_hash)
    ⨾ write_text s.obj_name
    ⨾ write_text s.address
    ⨾ write_text s.version
    ⨾ write_boolean s.alive
    ⨾ write_decimal s.wakeup
    ⨾ write_map_field s.tags

unfoldable pub read_object_pack : ℕ → Reader ObjectPack
read_object_pack f = do
  obj_type ← read_text
  obj_hash ← read_decimal32
  obj_name ← read_text
  address ← read_text
  version ← read_text
  alive ← read_boolean
  wakeup ← read_decimal
  tags ← read_map_field f
  return (record {
    obj_type = obj_type;
    obj_hash = obj_hash;
    obj_name = obj_name;
    address = address;
    version = version;
    alive = alive;
    wakeup = wakeup;
    tags = tags;
  })

pub record IsObjectPack (f : ℕ) (s : ObjectPack) : Type 0 where
  pub obj_type : IsBlob s.obj_type
  pub obj_hash : IsI32 s.obj_hash
  pub obj_name : IsBlob s.obj_name
  pub address : IsBlob s.address
  pub version : IsBlob s.version
  pub wakeup : IsI64 s.wakeup
  pub tags : IsMapField f s.tags

-- What comes back: a nil field as an empty one, a nil value as a NullValue.
abbrev pub erase_object_pack : ObjectPack → ObjectPack
erase_object_pack s = record s { tags = erase_map s.tags }

pub RoundTrips-object_pack :
    (f : ℕ) (s : ObjectPack)
    → IsObjectPack f s
    → RoundTrips (write_object_pack s) (read_object_pack f) (erase_object_pack s)
unfolding write_object_pack read_object_pack
RoundTrips-object_pack f s v = RoundTrips-seq _ (RoundTrips-text s.obj_type v.obj_type) (
    RoundTrips-seq _ (RoundTrips-decimal32 s.obj_hash v.obj_hash) (
      RoundTrips-seq _ (RoundTrips-text s.obj_name v.obj_name) (
        RoundTrips-seq _ (RoundTrips-text s.address v.address) (
          RoundTrips-seq _ (RoundTrips-text s.version v.version) (
            RoundTrips-seq _ (RoundTrips-boolean s.alive) (
              RoundTrips-seq _ (RoundTrips-decimal s.wakeup v.wakeup)
                (RoundTrips-last _ (RoundTrips-map_field f s.tags v.tags))))))))
