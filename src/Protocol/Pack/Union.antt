-- ===== src/Protocol/Pack/Union.antt =====
-- The interface Pack of internal/protocol/pack/pack.go: the type codes, CreatePack, WritePack and
-- ReadPack. The fuel of the readers bounds how deep the values of a pack are nested.
use scouter_server_go.Common.{ℕ, ◌==◌, Option, none, some, if◌then◌else◌}
use scouter_server_go.Protocol.Output.{Writer, ◌⨾◌, write_byte}
use scouter_server_go.Protocol.Input.{Reader, return, ◌>>=◌, read_byte, read_created}
use scouter_server_go.Protocol.Pack.Map.{MapPack, write_map_pack, read_map_pack}
use scouter_server_go.Protocol.Pack.Xlog.{XlogPack, write_xlog_pack, read_xlog_pack}
use scouter_server_go.Protocol.Pack.Plain.{
  DroppedXlogPack, write_dropped_xlog_pack, read_dropped_xlog_pack, XlogProfilePack,
  write_xlog_profile_pack, read_xlog_profile_pack, XlogProfilePack2, write_xlog_profile_pack2,
  read_xlog_profile_pack2, SpanContainerPack, write_span_container_pack, read_span_container_pack,
  TextPack, write_text_pack, read_text_pack, StackPack, write_stack_pack, read_stack_pack,
}
use scouter_server_go.Protocol.Pack.Object.{
  AlertPack, write_alert_pack, read_alert_pack, ObjectPack, write_object_pack, read_object_pack,
}
use scouter_server_go.Protocol.Pack.Spans.{SpanPack, write_span_pack, read_span_pack}
use scouter_server_go.Protocol.Pack.Counter.{
  PerfCounterPack, write_perf_counter_pack, read_perf_counter_pack, StatusPack, write_status_pack,
  read_status_pack, SummaryPack, write_summary_pack, read_summary_pack, InteractionPerfCounterPack,
  write_interaction_perf_counter_pack, read_interaction_perf_counter_pack,
}
use scouter_server_go.Protocol.Pack.Batch.{BatchPack, write_batch_pack, read_batch_pack}

pub data Pack : Type 0 where
  map_pack : MapPack → Pack
  xlog_pack : XlogPack → Pack
  dropped_xlog_pack : DroppedXlogPack → Pack
  xlog_profile_pack : XlogProfilePack → Pack
  xlog_profile_pack2 : XlogProfilePack2 → Pack
  span_pack : SpanPack → Pack
  span_container_pack : SpanContainerPack → Pack
  text_pack : TextPack → Pack
  perf_counter_pack : PerfCounterPack → Pack
  status_pack : StatusPack → Pack
  stack_pack : StackPack → Pack
  summary_pack : SummaryPack → Pack
  batch_pack : BatchPack → Pack
  interaction_perf_counter_pack : InteractionPerfCounterPack → Pack
  alert_pack : AlertPack → Pack
  object_pack : ObjectPack → Pack

abbrev pub pack_type : Pack → ℕ
pack_type (map_pack s) = 10
pack_type (xlog_pack s) = 21
pack_type (dropped_xlog_pack s) = 22
pack_type (xlog_profile_pack s) = 26
pack_type (xlog_profile_pack2 s) = 27
pack_type (span_pack s) = 31
pack_type (span_container_pack s) = 32
pack_type (text_pack s) = 50
pack_type (perf_counter_pack s) = 60
pack_type (status_pack s) = 61
pack_type (stack_pack s) = 62
pack_type (summary_pack s) = 63
pack_type (batch_pack s) = 64
pack_type (interaction_perf_counter_pack s) = 65
pack_type (alert_pack s) = 70
pack_type (object_pack s) = 80

-- The method `Write` of each type.
unfoldable pub write_pack_body : Pack → Writer
write_pack_body (map_pack s) = write_map_pack s
write_pack_body (xlog_pack s) = write_xlog_pack s
write_pack_body (dropped_xlog_pack s) = write_dropped_xlog_pack s
write_pack_body (xlog_profile_pack s) = write_xlog_profile_pack s
write_pack_body (xlog_profile_pack2 s) = write_xlog_profile_pack2 s
write_pack_body (span_pack s) = write_span_pack s
write_pack_body (span_container_pack s) = write_span_container_pack s
write_pack_body (text_pack s) = write_text_pack s
write_pack_body (perf_counter_pack s) = write_perf_counter_pack s
write_pack_body (status_pack s) = write_status_pack s
write_pack_body (stack_pack s) = write_stack_pack s
write_pack_body (summary_pack s) = write_summary_pack s
write_pack_body (batch_pack s) = write_batch_pack s
write_pack_body (interaction_perf_counter_pack s) = write_interaction_perf_counter_pack s
write_pack_body (alert_pack s) = write_alert_pack s
write_pack_body (object_pack s) = write_object_pack s

unfoldable pub write_pack : Pack → Writer
write_pack p = write_byte (pack_type p) ⨾ write_pack_body p

-- The method `Read` of the pack that CreatePack makes of a type code, if it makes one.
unfoldable pub create_pack : ℕ → ℕ → Option (Reader Pack)
create_pack f t =
    if t == 10
    then some (do s ← read_map_pack f; return (map_pack s))
    else if t == 21
    then some (do s ← read_xlog_pack; return (xlog_pack s))
    else if t == 22
    then some (do s ← read_dropped_xlog_pack; return (dropped_xlog_pack s))
    else if t == 26
    then some (do s ← read_xlog_profile_pack; return (xlog_profile_pack s))
    else if t == 27
    then some (do s ← read_xlog_profile_pack2; return (xlog_profile_pack2 s))
    else if t == 31
    then some (do s ← read_span_pack f; return (span_pack s))
    else if t == 32
    then some (do s ← read_span_container_pack; return (span_container_pack s))
    else if t == 50
    then some (do s ← read_text_pack; return (text_pack s))
    else if t == 60
    then some (do s ← read_perf_counter_pack f; return (perf_counter_pack s))
    else if t == 61
    then some (do s ← read_status_pack f; return (status_pack s))
    else if t == 62
    then some (do s ← read_stack_pack; return (stack_pack s))
    else if t == 63
    then some (do s ← read_summary_pack f; return (summary_pack s))
    else if t == 64
    then some (do s ← read_batch_pack; return (batch_pack s))
    else if t == 65
    then some
        (do s ← read_interaction_perf_counter_pack f; return (interaction_perf_counter_pack s))
    else if t == 70
    then some (do s ← read_alert_pack f; return (alert_pack s))
    else if t == 80
    then some (do s ← read_object_pack f; return (object_pack s))
    else none

unfoldable pub read_pack : ℕ → Reader Pack
read_pack f = do t ← read_byte; read_created t (create_pack f t)
