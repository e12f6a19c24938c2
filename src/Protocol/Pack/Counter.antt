-- ===== src/Protocol/Pack/Counter.antt =====
-- The packs of internal/protocol/pack that carry counters and summaries: PerfCounterPack,
-- InteractionPerfCounterPack, StatusPack, SummaryPack.
use scouter_server_go.Common.{ℕ, List, Option}
use scouter_server_go.Protocol.Word.{IsI32, IsI64, i64_of_i32}
use scouter_server_go.Protocol.Output.{
  Writer, ◌⨾◌, write_byte, write_int32, write_int64, write_decimal, write_text,
}
use scouter_server_go.Protocol.Input.{
  Reader, return, ◌>>=◌, read_byte, read_int32, read_int64, read_decimal, read_decimal32, read_text,
}
use scouter_server_go.Protocol.Codec.{RoundTrips, RoundTrips-seq, RoundTrips-last}
use scouter_server_go.Protocol.WordCodec.{RoundTrips-byte, RoundTrips-int32, RoundTrips-int64}
use scouter_server_go.Protocol.DecimalCodec.{RoundTrips-decimal, RoundTrips-decimal32}
use scouter_server_go.Protocol.SliceCodec.{IsBlob, RoundTrips-text}
use scouter_server_go.Protocol.Value.{Entries}
use scouter_server_go.Protocol.Pack.Fields.{
  write_map_field, read_map_field, IsMapField, erase_map, RoundTrips-map_field,
}

pub record PerfCounterPack : Type 0 where
  pub time : ℕ
  pub obj_name : List ℕ
  pub time_type : ℕ
  pub counters : Option Entries

unfoldable pub write_perf_counter_pack : PerfCounterPack → Writer
write_perf_counter_pack s =
    write_int64 s.time ⨾ write_text s.obj_name ⨾ write_byte s.time_type ⨾ write_map_field s.counters

unfoldable pub read_perf_counter_pack : ℕ → Reader PerfCounterPack
read_perf_counter_pack f = do
  time ← read_int64
  obj_name ← read_text
  time_type ← read_byte
  counters ← read_map_field f
  return (record { time = time; obj_name = obj_name; time_type = time_type; counters = counters })

pub record IsPerfCounterPack (f : ℕ) (s : PerfCounterPack) : Type 0 where
  pub time : IsI64 s.time
  pub obj_name : IsBlob s.obj_name
  pub counters : IsMapField f s.counters

-- What comes back: a nil field as an empty one, a nil value as a NullValue.
abbrev pub erase_perf_counter_pack : PerfCounterPack → PerfCounterPack
erase_perf_counter_pack s = record s { counters = erase_map s.counters }

pub RoundTrips-perf_counter_pack :
    (f : ℕ) (s : PerfCounterPack)
    → IsPerfCounterPack f s
    → RoundTrips (write_perf_counter_pack s) (read_perf_counter_pack f) (erase_perf_counter_pack s)
unfolding write_perf_counter_pack read_perf_counter_pack
RoundTrips-perf_counter_pack f s v = RoundTrips-seq _ (RoundTrips-int64 s.time v.time) (
    RoundTrips-seq _ (RoundTrips-text s.obj_name v.obj_name) (
      RoundTrips-seq _ (RoundTrips-byte s.time_type)
        (RoundTrips-last _ (RoundTrips-map_field f s.counters v.counters))))

pub record InteractionPerfCounterPack : Type 0 where
  pub time : ℕ
  pub obj_name : List ℕ
  pub interaction_type : List ℕ
  pub from_hash : ℕ
  pub to_hash : ℕ
  pub period : ℕ
  pub count : ℕ
  pub error_count : ℕ
  pub total_elapsed : ℕ
  pub custom_data : Option Entries

unfoldable pub write_interaction_perf_counter_pack : InteractionPerfCounterPack → Writer
write_interaction_perf_counter_pack s =
    write_int64 s.time
    ⨾ write_text s.obj_name
    ⨾ write_text s.interaction_type
    ⨾ write_int32 s.from_hash
    ⨾ write_int32 s.to_hash
    ⨾ write_int32 s.period
    ⨾ write_int32 s.count
    ⨾ write_int32 s.error_count
    ⨾ write_int64 s.total_elapsed
    ⨾ write_map_field s.custom_data

unfoldable pub read_interaction_perf_counter_pack : ℕ → Reader InteractionPerfCounterPack
read_interaction_perf_counter_pack f = do
  time ← read_int64
  obj_name ← read_text
  interaction_type ← read_text
  from_hash ← read_int32
  to_hash ← read_int32
  period ← read_int32
  count ← read_int32
  error_count ← read_int32
  total_elapsed ← read_int64
  custom_data ← read_map_field f
  return (record {
    time = time;
    obj_name = obj_name;
    interaction_type = interaction_type;
    from_hash = from_hash;
    to_hash = to_hash;
    period = period;
    count = count;
    error_count = error_count;
    total_elapsed = total_elapsed;
    custom_data = custom_data;
  })

pub record IsInteractionPerfCounterPack (f : ℕ) (s : InteractionPerfCounterPack) : Type 0 where
  pub time : IsI64 s.time
  pub obj_name : IsBlob s.obj_name
  pub interaction_type : IsBlob s.interaction_type
  pub from_hash : IsI32 s.from_hash
  pub to_hash : IsI32 s.to_hash
  pub period : IsI32 s.period
  pub count : IsI32 s.count
  pub error_count : IsI32 s.error_count
  pub total_elapsed : IsI64 s.total_elapsed
  pub custom_data : IsMapField f s.custom_data

-- What comes back: a nil field as an empty one, a nil value as a NullValue.
abbrev pub erase_interaction_perf_counter_pack :
    InteractionPerfCounterPack → InteractionPerfCounterPack
erase_interaction_perf_counter_pack s = record s { custom_data = erase_map s.custom_data }

pub RoundTrips-interaction_perf_counter_pack :
    (f : ℕ) (s : InteractionPerfCounterPack)
    → IsInteractionPerfCounterPack f s
    → RoundTrips
        (write_interaction_perf_counter_pack s)
        (read_interaction_perf_counter_pack f)
        (erase_interaction_perf_counter_pack s)
unfolding write_interaction_perf_counter_pack read_interaction_perf_counter_pack
RoundTrips-interaction_perf_counter_pack f s v = RoundTrips-seq _ (RoundTrips-int64 s.time v.time) (
    RoundTrips-seq _ (RoundTrips-text s.obj_name v.obj_name) (
      RoundTrips-seq _ (RoundTrips-text s.interaction_type v.interaction_type) (
        RoundTrips-seq _ (RoundTrips-int32 s.from_hash v.from_hash) (
          RoundTrips-seq _ (RoundTrips-int32 s.to_hash v.to_hash) (
            RoundTrips-seq _ (RoundTrips-int32 s.period v.period) (
              RoundTrips-seq _ (RoundTrips-int32 s.count v.count) (
                RoundTrips-seq _ (RoundTrips-int32 s.error_count v.error_count) (
                  RoundTrips-seq _ (RoundTrips-int64 s.total_elapsed v.total_elapsed)
                    (RoundTrips-last _ (RoundTrips-map_field f s.custom_data v.custom_data))))))))))

pub record StatusPack : Type 0 where
  pub time : ℕ
  pub obj_type : List ℕ
  pub obj_hash : ℕ
  pub key : List ℕ
  pub status : Option Entries

unfoldable pub write_status_pack : StatusPack → Writer
write_status_pack s =
    write_decimal s.time
    ⨾ write_text s.obj_type
    ⨾ write_decimal (i64_of_i32 s.obj_hash)
    ⨾ write_text s.key
    ⨾ write_map_field s.status

unfoldable pub read_status_pack : ℕ → Reader StatusPack
read_status_pack f = do
  time ← read_decimal
  obj_type ← read_text
  obj_hash ← read_decimal32
  key ← read_text
  status ← read_map_field f
  return
      (record { time = time; obj_type = obj_type; obj_hash = obj_hash; key = key; status = status })

pub record IsStatusPack (f : ℕ) (s : StatusPack) : Type 0 where
  pub time : IsI64 s.time
  pub obj_type : IsBlob s.obj_type
  pub obj_hash : IsI32 s.obj_hash
  pub key : IsBlob s.key
  pub status : IsMapField f s.status

-- What comes back: a nil field as an empty one, a nil value as a NullValue.
abbrev pub erase_status_pack : StatusPack → StatusPack
erase_status_pack s = record s { status = erase_map s.status }

pub RoundTrips-status_pack :
    (f : ℕ) (s : StatusPack)
    → IsStatusPack f s
    → RoundTrips (write_status_pack s) (read_status_pack f) (erase_status_pack s)
unfolding write_status_pack read_status_pack
RoundTrips-status_pack f s v = RoundTrips-seq _ (RoundTrips-decimal s.time v.time) (
    RoundTrips-seq _ (RoundTrips-text s.obj_type v.obj_type) (
      RoundTrips-seq _ (RoundTrips-decimal32 s.obj_hash v.obj_hash) (
        RoundTrips-seq _ (RoundTrips-text s.key v.key)
          (RoundTrips-last _ (RoundTrips-map_field f s.status v.status)))))

pub record SummaryPack : Type 0 where
  pub time : ℕ
  pub obj_hash : ℕ
  pub obj_type : List ℕ
  pub stype : ℕ
  pub table : Option Entries

unfoldable pub write_summary_pack : SummaryPack → Writer
write_summary_pack s =
    write_decimal s.time
    ⨾ write_int32 s.obj_hash
    ⨾ write_text s.obj_type
    ⨾ write_byte s.stype
    ⨾ write_map_field s.table

unfoldable pub read_summary_pack : ℕ → Reader SummaryPack
read_summary_pack f = do
  time ← read_decimal
  obj_hash ← read_int32
  obj_type ← read_text
  stype ← read_byte
  table ← read_map_field f
  return (record {
    time = time;
    obj_hash = obj_hash;
    obj_type = obj_type;
    stype = stype;
    table = table;
  })

pub record IsSummaryPack (f : ℕ) (s : SummaryPack) : Type 0 where
  pub time : IsI64 s.time
  pub obj_hash : IsI32 s.obj_hash
  pub obj_type : IsBlob s.obj_type
  pub table : IsMapField f s.table

-- What comes back: a nil field as an empty one, a nil value as a NullValue.
abbrev pub erase_summary_pack : SummaryPack → SummaryPack
erase_summary_pack s = record s { table = erase_map s.table }

pub RoundTrips-summary_pack :
    (f : ℕ) (s : SummaryPack)
    → IsSummaryPack f s
    → RoundTrips (write_summary_pack s) (read_summary_pack f) (erase_summary_pack s)
unfolding write_summary_pack read_summary_pack
RoundTrips-summary_pack f s v = RoundTrips-seq _ (RoundTrips-decimal s.time v.time) (
    RoundTrips-seq _ (RoundTrips-int32 s.obj_hash v.obj_hash) (
      RoundTrips-seq _ (RoundTrips-text s.obj_type v.obj_type) (
        RoundTrips-seq _ (RoundTrips-byte s.stype)
          (RoundTrips-last _ (RoundTrips-map_field f s.table v.table)))))
