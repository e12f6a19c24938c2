-- ===== src/Protocol/Pack/RoundTrip.antt =====
-- ReadPack reads back what WritePack wrote, whichever type the pack has.
use scouter_server_go.Common.{ℕ, ◌≡◌, List, ◌++◌, length}
use scouter_server_go.Protocol.Output.{DataOutputX}
use scouter_server_go.Protocol.Input.{ok, new_input_offset, read_created}
use scouter_server_go.Protocol.Codec.{RoundTrips, RoundTrips-seq, RoundTrips-last, read-write}
use scouter_server_go.Protocol.WordCodec.{RoundTrips-byte}
use scouter_server_go.Protocol.Pack.XlogCodec.{IsXlogPack, RoundTrips-xlog_pack}
use scouter_server_go.Protocol.Pack.Map.{IsMapPack, RoundTrips-map_pack, erase_map_pack}
use scouter_server_go.Protocol.Pack.Plain.{
  IsDroppedXlogPack, RoundTrips-dropped_xlog_pack, IsXlogProfilePack, RoundTrips-xlog_profile_pack,
  IsXlogProfilePack2, RoundTrips-xlog_profile_pack2, IsSpanContainerPack,
  RoundTrips-span_container_pack, IsTextPack, RoundTrips-text_pack, IsStackPack,
  RoundTrips-stack_pack,
}
use scouter_server_go.Protocol.Pack.Object.{
  IsAlertPack, RoundTrips-alert_pack, erase_alert_pack, IsObjectPack, RoundTrips-object_pack,
  erase_object_pack,
}
use scouter_server_go.Protocol.Pack.Spans.{IsSpanPack, RoundTrips-span_pack, erase_span_pack}
use scouter_server_go.Protocol.Pack.Counter.{
  IsPerfCounterPack, RoundTrips-perf_counter_pack, erase_perf_counter_pack, IsStatusPack,
  RoundTrips-status_pack, erase_status_pack, IsSummaryPack, RoundTrips-summary_pack,
  erase_summary_pack, IsInteractionPerfCounterPack, RoundTrips-interaction_perf_counter_pack,
  erase_interaction_perf_counter_pack,
}
use scouter_server_go.Protocol.Pack.Batch.{IsBatchPack, RoundTrips-batch_pack}
use scouter_server_go.Protocol.Pack.Union.{
  Pack, map_pack, xlog_pack, dropped_xlog_pack, xlog_profile_pack, xlog_profile_pack2, span_pack,
  span_container_pack, text_pack, perf_counter_pack, status_pack, stack_pack, summary_pack,
  batch_pack, interaction_perf_counter_pack, alert_pack, object_pack, pack_type, write_pack_body,
  write_pack, create_pack, read_pack,
}

-- The fields are what their Go types hold, and no value is nested deeper than the fuel.
abbrev pub IsPack : ℕ → Pack → Type 0
IsPack f (map_pack s) = IsMapPack f s
IsPack f (xlog_pack s) = IsXlogPack s
IsPack f (dropped_xlog_pack s) = IsDroppedXlogPack s
IsPack f (xlog_profile_pack s) = IsXlogProfilePack s
IsPack f (xlog_profile_pack2 s) = IsXlogProfilePack2 s
IsPack f (span_pack s) = IsSpanPack f s
IsPack f (span_container_pack s) = IsSpanContainerPack s
IsPack f (text_pack s) = IsTextPack s
IsPack f (perf_counter_pack s) = IsPerfCounterPack f s
IsPack f (status_pack s) = IsStatusPack f s
IsPack f (stack_pack s) = IsStackPack s
IsPack f (summary_pack s) = IsSummaryPack f s
IsPack f (batch_pack s) = IsBatchPack s
IsPack f (interaction_perf_counter_pack s) = IsInteractionPerfCounterPack f s
IsPack f (alert_pack s) = IsAlertPack f s
IsPack f (object_pack s) = IsObjectPack f s

-- What comes back: an empty map or list for a nil pointer, a NullValue for a nil value.
abbrev pub erase_pack : Pack → Pack
erase_pack (map_pack s) = map_pack (erase_map_pack s)
erase_pack (xlog_pack s) = xlog_pack s
erase_pack (dropped_xlog_pack s) = dropped_xlog_pack s
erase_pack (xlog_profile_pack s) = xlog_profile_pack s
erase_pack (xlog_profile_pack2 s) = xlog_profile_pack2 s
erase_pack (span_pack s) = span_pack (erase_span_pack s)
erase_pack (span_container_pack s) = span_container_pack s
erase_pack (text_pack s) = text_pack s
erase_pack (perf_counter_pack s) = perf_counter_pack (erase_perf_counter_pack s)
erase_pack (status_pack s) = status_pack (erase_status_pack s)
erase_pack (stack_pack s) = stack_pack s
erase_pack (summary_pack s) = summary_pack (erase_summary_pack s)
erase_pack (batch_pack s) = batch_pack s
erase_pack (interaction_perf_counter_pack s) =
    interaction_perf_counter_pack (erase_interaction_perf_counter_pack s)
erase_pack (alert_pack s) = alert_pack (erase_alert_pack s)
erase_pack (object_pack s) = object_pack (erase_object_pack s)

RoundTrips-pack_body :
    (f : ℕ) (p : Pack)
    → IsPack f p
    → RoundTrips
        (write_pack_body p)
        (read_created (pack_type p) (create_pack f (pack_type p)))
        (erase_pack p)
unfolding write_pack_body create_pack read_created
RoundTrips-pack_body f (map_pack s) v = RoundTrips-last _ (RoundTrips-map_pack f s v)
RoundTrips-pack_body f (xlog_pack s) v = RoundTrips-last _ (RoundTrips-xlog_pack s v)
RoundTrips-pack_body f (dropped_xlog_pack s) v =
    RoundTrips-last _ (RoundTrips-dropped_xlog_pack s v)
RoundTrips-pack_body f (xlog_profile_pack s) v =
    RoundTrips-last _ (RoundTrips-xlog_profile_pack s v)
RoundTrips-pack_body f (xlog_profile_pack2 s) v =
    RoundTrips-last _ (RoundTrips-xlog_profile_pack2 s v)
RoundTrips-pack_body f (span_pack s) v = RoundTrips-last _ (RoundTrips-span_pack f s v)
RoundTrips-pack_body f (span_container_pack s) v =
    RoundTrips-last _ (RoundTrips-span_container_pack s v)
RoundTrips-pack_body f (text_pack s) v = RoundTrips-last _ (RoundTrips-text_pack s v)
RoundTrips-pack_body f (perf_counter_pack s) v =
    RoundTrips-last _ (RoundTrips-perf_counter_pack f s v)
RoundTrips-pack_body f (status_pack s) v = RoundTrips-last _ (RoundTrips-status_pack f s v)
RoundTrips-pack_body f (stack_pack s) v = RoundTrips-last _ (RoundTrips-stack_pack s v)
RoundTrips-pack_body f (summary_pack s) v = RoundTrips-last _ (RoundTrips-summary_pack f s v)
RoundTrips-pack_body f (batch_pack s) v = RoundTrips-last _ (RoundTrips-batch_pack s v)
RoundTrips-pack_body f (interaction_perf_counter_pack s) v =
    RoundTrips-last _ (RoundTrips-interaction_perf_counter_pack f s v)
RoundTrips-pack_body f (alert_pack s) v = RoundTrips-last _ (RoundTrips-alert_pack f s v)
RoundTrips-pack_body f (object_pack s) v = RoundTrips-last _ (RoundTrips-object_pack f s v)

pub RoundTrips-pack :
    (f : ℕ) (p : Pack) → IsPack f p → RoundTrips (write_pack p) (read_pack f) (erase_pack p)
unfolding write_pack read_pack
RoundTrips-pack f p v =
    RoundTrips-seq _ (RoundTrips-byte (pack_type p)) (RoundTrips-pack_body f p v)

-- A valid pack of any of the 16 types that was written anywhere in a buffer is read back from there,
-- each nil pointer in it as an empty map or list and each nil value as a NullValue, and the offset is
-- then just behind it. The fuel is at least the depth of its values.
pub read_pack-write_pack :
    (f : ℕ) (p : Pack) (o : DataOutputX) (rest : List ℕ)
    → IsPack f p
    → read_pack f (new_input_offset ((write_pack p o).buf ++ rest) (length o.buf))
      ≡ ok (
        erase_pack p,
        new_input_offset ((write_pack p o).buf ++ rest) (length (write_pack p o).buf),
      )
read_pack-write_pack f p o rest v = read-write o rest (RoundTrips-pack f p v)
