-- ===== src/Protocol/Step/Span.antt =====
-- The span steps of internal/protocol/step/span_step.go: CommonSpanStep, SpanStep, SpanCallStep.
use scouter_server_go.Common.{ℕ, ◌^◌, ◌<◌, Bool, List, length, All}
use scouter_server_go.Protocol.Word.{IsI16, IsI32, IsI64, i64_of_i32}
use scouter_server_go.Protocol.Output.{
  Writer, ◌⨾◌, write_byte, write_boolean, write_int16, write_int64, write_decimal, write_blob,
  write_decimal_array, write_decimal_int_array,
}
use scouter_server_go.Protocol.Input.{
  Reader, return, ◌>>=◌, read_byte, read_boolean, read_int16, read_int64, read_decimal32, read_blob,
  read_decimal_array, read_decimal_int_array,
}
use scouter_server_go.Protocol.Codec.{RoundTrips, RoundTrips-seq, RoundTrips-last}
use scouter_server_go.Protocol.WordCodec.{
  RoundTrips-byte, RoundTrips-boolean, RoundTrips-int16, RoundTrips-int64,
}
use scouter_server_go.Protocol.DecimalCodec.{RoundTrips-decimal32}
use scouter_server_go.Protocol.SliceCodec.{
  IsBlob, RoundTrips-blob, RoundTrips-decimal_array, RoundTrips-decimal_int_array,
}
use scouter_server_go.Protocol.Step.Base.{
  StepSingle, write_step_single, read_step_single, IsStepSingle, RoundTrips-step_single,
  write_opt_text, read_opt_text, IsOptText, RoundTrips-opt_text,
}

pub record CommonSpanStep : Type 0 where
  pub single : StepSingle
  pub local_endpoint_service_name : ℕ
  pub local_endpoint_ip : List ℕ
  pub local_endpoint_port : ℕ
  pub remote_endpoint_service_name : ℕ
  pub remote_endpoint_ip : List ℕ
  pub remote_endpoint_port : ℕ
  pub debug : Bool
  pub shared : Bool
  pub timestamp : ℕ
  pub elapsed : ℕ
  pub error : ℕ
  pub annotation_timestamps : List ℕ
  pub annotation_values : List ℕ

unfoldable pub write_common_span : CommonSpanStep → Writer
write_common_span s =
    write_step_single s.single
    ⨾ write_decimal (i64_of_i32 s.local_endpoint_service_name)
    ⨾ write_blob s.local_endpoint_ip
    ⨾ write_int16 s.local_endpoint_port
    ⨾ write_decimal (i64_of_i32 s.remote_endpoint_service_name)
    ⨾ write_blob s.remote_endpoint_ip
    ⨾ write_int16 s.remote_endpoint_port
    ⨾ write_boolean s.debug
    ⨾ write_boolean s.shared
    ⨾ write_int64 s.timestamp
    ⨾ write_decimal (i64_of_i32 s.elapsed)
    ⨾ write_decimal (i64_of_i32 s.error)
    ⨾ write_decimal_array s.annotation_timestamps
    ⨾ write_decimal_int_array s.annotation_values

unfoldable pub read_common_span : Reader CommonSpanStep
read_common_span = do
  single ← read_step_single
  local_endpoint_service_name ← read_decimal32
  local_endpoint_ip ← read_blob
  local_endpoint_port ← read_int16
  remote_endpoint_service_name ← read_decimal32
  remote_endpoint_ip ← read_blob
  remote_endpoint_port ← read_int16
  debug ← read_boolean
  shared ← read_boolean
  timestamp ← read_int64
  elapsed ← read_decimal32
  error ← read_decimal32
  annotation_timestamps ← read_decimal_array
  annotation_values ← read_decimal_int_array
  return (record {
    single = single;
    local_endpoint_service_name = local_endpoint_service_name;
    local_endpoint_ip = local_endpoint_ip;
    local_endpoint_port = local_endpoint_port;
    remote_endpoint_service_name = remote_endpoint_service_name;
    remote_endpoint_ip = remote_endpoint_ip;
    remote_endpoint_port = remote_endpoint_port;
    debug = debug;
    shared = shared;
    timestamp = timestamp;
    elapsed = elapsed;
    error = error;
    annotation_timestamps = annotation_timestamps;
    annotation_values = annotation_values;
  })

pub record IsCommonSpanStep (s : CommonSpanStep) : Type 0 where
  pub single : IsStepSingle s.single
  pub local_endpoint_service_name : IsI32 s.local_endpoint_service_name
  pub local_endpoint_ip : IsBlob s.local_endpoint_ip
  pub local_endpoint_port : IsI16 s.local_endpoint_port
  pub remote_endpoint_service_name : IsI32 s.remote_endpoint_service_name
  pub remote_endpoint_ip : IsBlob s.remote_endpoint_ip
  pub remote_endpoint_port : IsI16 s.remote_endpoint_port
  pub timestamp : IsI64 s.timestamp
  pub elapsed : IsI32 s.elapsed
  pub error : IsI32 s.error
  pub annotation_timestamps :
      (length s.annotation_timestamps < 2 ^ 63) × All IsI64 s.annotation_timestamps
  pub annotation_values : (length s.annotation_values < 2 ^ 63) × All IsI32 s.annotation_values

pub RoundTrips-common_span :
    (s : CommonSpanStep) → IsCommonSpanStep s → RoundTrips (write_common_span s) read_common_span s
unfolding write_common_span read_common_span
RoundTrips-common_span s v = RoundTrips-seq _ (RoundTrips-step_single s.single v.single) (
    RoundTrips-seq _
      (RoundTrips-decimal32 s.local_endpoint_service_name v.local_endpoint_service_name)
      (RoundTrips-seq _ (RoundTrips-blob s.local_endpoint_ip v.local_endpoint_ip) (
        RoundTrips-seq _ (RoundTrips-int16 s.local_endpoint_port v.local_endpoint_port) (
          RoundTrips-seq _
            (RoundTrips-decimal32 s.remote_endpoint_service_name v.remote_endpoint_service_name)
            (RoundTrips-seq _ (RoundTrips-blob s.remote_endpoint_ip v.remote_endpoint_ip) (
              RoundTrips-seq _ (RoundTrips-int16 s.remote_endpoint_port v.remote_endpoint_port) (
                RoundTrips-seq _ (RoundTrips-boolean s.debug) (
                  RoundTrips-seq _ (RoundTrips-boolean s.shared) (
                    RoundTrips-seq _ (RoundTrips-int64 s.timestamp v.timestamp) (
                      RoundTrips-seq _ (RoundTrips-decimal32 s.elapsed v.elapsed) (
                        RoundTrips-seq _ (RoundTrips-decimal32 s.error v.error) (
                          RoundTrips-seq _
                            (RoundTrips-decimal_array s.annotation_timestamps
                              v.annotation_timestamps.0 v.annotation_timestamps.1)
                            (RoundTrips-last _ (
                              RoundTrips-decimal_int_array s.annotation_values v.annotation_values.0
                                v.annotation_values.1))))))))))))))

pub record SpanStep : Type 0 where
  pub common : CommonSpanStep

unfoldable pub write_span_step : SpanStep → Writer
write_span_step s = write_common_span s.common

unfoldable pub read_span_step : Reader SpanStep
read_span_step = do common ← read_common_span; return (record { common = common })

pub record IsSpanStep (s : SpanStep) : Type 0 where
  pub common : IsCommonSpanStep s.common

pub RoundTrips-span_step :
    (s : SpanStep) → IsSpanStep s → RoundTrips (write_span_step s) read_span_step s
unfolding write_span_step read_span_step
RoundTrips-span_step s v = RoundTrips-last _ (RoundTrips-common_span s.common v.common)

pub record SpanCallStep : Type 0 where
  pub common : CommonSpanStep
  pub txid : ℕ
  pub opt : ℕ
  pub address : List ℕ
  pub async : ℕ

unfoldable pub write_span_call_step : SpanCallStep → Writer
write_span_call_step s =
    write_common_span s.common
    ⨾ write_int64 s.txid
    ⨾ write_byte s.opt
    ⨾ write_opt_text s.opt s.address
    ⨾ write_byte s.async

unfoldable pub read_span_call_step : Reader SpanCallStep
read_span_call_step = do
  common ← read_common_span
  txid ← read_int64
  opt ← read_byte
  address ← read_opt_text opt
  async ← read_byte
  return (record { common = common; txid = txid; opt = opt; address = address; async = async })

pub record IsSpanCallStep (s : SpanCallStep) : Type 0 where
  pub common : IsCommonSpanStep s.common
  pub txid : IsI64 s.txid
  pub address : IsOptText s.opt s.address

pub RoundTrips-span_call_step :
    (s : SpanCallStep)
    → IsSpanCallStep s
    → RoundTrips (write_span_call_step s) read_span_call_step s
unfolding write_span_call_step read_span_call_step
RoundTrips-span_call_step s v = RoundTrips-seq _ (RoundTrips-common_span s.common v.common) (
    RoundTrips-seq _ (RoundTrips-int64 s.txid v.txid) (
      RoundTrips-seq _ (RoundTrips-byte s.opt) (
        RoundTrips-seq _ (RoundTrips-opt_text s.opt s.address v.address)
          (RoundTrips-last _ (RoundTrips-byte s.async)))))
