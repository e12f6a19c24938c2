-- ===== src/Protocol/Step/RoundTrip.antt =====
-- ReadStep reads back what WriteStep wrote, whichever type the step has.
use scouter_server_go.Common.{ℕ, ◌≡◌, List, ◌++◌, length}
use scouter_server_go.Protocol.Output.{DataOutputX}
use scouter_server_go.Protocol.Input.{ok, new_input_offset, read_created}
use scouter_server_go.Protocol.Codec.{RoundTrips, RoundTrips-seq, RoundTrips-last, read-write}
use scouter_server_go.Protocol.WordCodec.{RoundTrips-byte}
use scouter_server_go.Protocol.Step.Method.{
  IsMethodStep, RoundTrips-method_step, IsMethodStep2, RoundTrips-method_step2, IsHashedMessageStep,
  RoundTrips-hashed_message_step, IsMethodSum, RoundTrips-method_sum,
}
use scouter_server_go.Protocol.Step.Message.{
  IsMessageStep, RoundTrips-message_step, IsParameterizedMessageStep,
  RoundTrips-parameterized_message_step, IsMessageSum, RoundTrips-message_sum, IsStepControl,
  RoundTrips-step_control,
}
use scouter_server_go.Protocol.Step.Sql.{
  IsSqlStep, RoundTrips-sql_step, IsSqlStep2, RoundTrips-sql_step2, IsSqlStep3,
  RoundTrips-sql_step3, IsSqlSum, RoundTrips-sql_sum,
}
use scouter_server_go.Protocol.Step.Call.{
  IsApicallStep, RoundTrips-apicall_step, IsApicallStep2, RoundTrips-apicall_step2, IsDispatchStep,
  RoundTrips-dispatch_step, IsApicallSum, RoundTrips-apicall_sum,
}
use scouter_server_go.Protocol.Step.Thread.{
  IsThreadSubmitStep, RoundTrips-thread_submit_step, IsThreadCallPossibleStep,
  RoundTrips-thread_call_possible_step, IsDumpStep, RoundTrips-dump_step,
}
use scouter_server_go.Protocol.Step.Socket.{
  IsSocketStep, RoundTrips-socket_step, IsSocketSum, RoundTrips-socket_sum,
}
use scouter_server_go.Protocol.Step.Span.{
  IsSpanStep, RoundTrips-span_step, IsSpanCallStep, RoundTrips-span_call_step,
}
use scouter_server_go.Protocol.Step.Union.{
  Step, method_step, method_step2, sql_step, sql_step2, sql_step3, message_step, socket_step,
  apicall_step, apicall_step2, dispatch_step, thread_submit_step, thread_call_possible_step,
  hashed_message_step, parameterized_message_step, dump_step, method_sum, sql_sum, message_sum,
  socket_sum, apicall_sum, span_step, span_call_step, step_control, step_type, write_step_body,
  write_step, create_step, read_step,
}

-- The fields are what their Go types hold.
abbrev pub IsStep : Step → Type 0
IsStep (method_step s) = IsMethodStep s
IsStep (method_step2 s) = IsMethodStep2 s
IsStep (sql_step s) = IsSqlStep s
IsStep (sql_step2 s) = IsSqlStep2 s
IsStep (sql_step3 s) = IsSqlStep3 s
IsStep (message_step s) = IsMessageStep s
IsStep (socket_step s) = IsSocketStep s
IsStep (apicall_step s) = IsApicallStep s
IsStep (apicall_step2 s) = IsApicallStep2 s
IsStep (dispatch_step s) = IsDispatchStep s
IsStep (thread_submit_step s) = IsThreadSubmitStep s
IsStep (thread_call_possible_step s) = IsThreadCallPossibleStep s
IsStep (hashed_message_step s) = IsHashedMessageStep s
IsStep (parameterized_message_step s) = IsParameterizedMessageStep s
IsStep (dump_step s) = IsDumpStep s
IsStep (method_sum s) = IsMethodSum s
IsStep (sql_sum s) = IsSqlSum s
IsStep (message_sum s) = IsMessageSum s
IsStep (socket_sum s) = IsSocketSum s
IsStep (apicall_sum s) = IsApicallSum s
IsStep (span_step s) = IsSpanStep s
IsStep (span_call_step s) = IsSpanCallStep s
IsStep (step_control s) = IsStepControl s

RoundTrips-step_body :
    (s : Step)
    → IsStep s
    → RoundTrips (write_step_body s) (read_created (step_type s) (create_step (step_type s))) s
unfolding write_step_body create_step read_created
RoundTrips-step_body (method_step s) v = RoundTrips-last _ (RoundTrips-method_step s v)
RoundTrips-step_body (method_step2 s) v = RoundTrips-last _ (RoundTrips-method_step2 s v)
RoundTrips-step_body (sql_step s) v = RoundTrips-last _ (RoundTrips-sql_step s v)
RoundTrips-step_body (sql_step2 s) v = RoundTrips-last _ (RoundTrips-sql_step2 s v)
RoundTrips-step_body (sql_step3 s) v = RoundTrips-last _ (RoundTrips-sql_step3 s v)
RoundTrips-step_body (message_step s) v = RoundTrips-last _ (RoundTrips-message_step s v)
RoundTrips-step_body (socket_step s) v = RoundTrips-last _ (RoundTrips-socket_step s v)
RoundTrips-step_body (apicall_step s) v = RoundTrips-last _ (RoundTrips-apicall_step s v)
RoundTrips-step_body (apicall_step2 s) v = RoundTrips-last _ (RoundTrips-apicall_step2 s v)
RoundTrips-step_body (dispatch_step s) v = RoundTrips-last _ (RoundTrips-dispatch_step s v)
RoundTrips-step_body (thread_submit_step s) v =
    RoundTrips-last _ (RoundTrips-thread_submit_step s v)
RoundTrips-step_body (thread_call_possible_step s) v =
    RoundTrips-last _ (RoundTrips-thread_call_possible_step s v)
RoundTrips-step_body (hashed_message_step s) v =
    RoundTrips-last _ (RoundTrips-hashed_message_step s v)
RoundTrips-step_body (parameterized_message_step s) v =
    RoundTrips-last _ (RoundTrips-parameterized_message_step s v)
RoundTrips-step_body (dump_step s) v = RoundTrips-last _ (RoundTrips-dump_step s v)
RoundTrips-step_body (method_sum s) v = RoundTrips-last _ (RoundTrips-method_sum s v)
RoundTrips-step_body (sql_sum s) v = RoundTrips-last _ (RoundTrips-sql_sum s v)
RoundTrips-step_body (message_sum s) v = RoundTrips-last _ (RoundTrips-message_sum s v)
RoundTrips-step_body (socket_sum s) v = RoundTrips-last _ (RoundTrips-socket_sum s v)
RoundTrips-step_body (apicall_sum s) v = RoundTrips-last _ (RoundTrips-apicall_sum s v)
RoundTrips-step_body (span_step s) v = RoundTrips-last _ (RoundTrips-span_step s v)
RoundTrips-step_body (span_call_step s) v = RoundTrips-last _ (RoundTrips-span_call_step s v)
RoundTrips-step_body (step_control s) v = RoundTrips-last _ (RoundTrips-step_control s v)

pub RoundTrips-step : (s : Step) → IsStep s → RoundTrips (write_step s) read_step s
unfolding write_step read_step
RoundTrips-step s v = RoundTrips-seq _ (RoundTrips-byte (step_type s)) (RoundTrips-step_body s v)

-- A valid step of any of the 23 types that was written anywhere in a buffer is read back from there,
-- and the offset is then just behind it.
pub read_step-write_step :
    (s : Step) (o : DataOutputX) (rest : List ℕ)
    → IsStep s
    → read_step (new_input_offset ((write_step s o).buf ++ rest) (length o.buf))
      ≡ ok (s, new_input_offset ((write_step s o).buf ++ rest) (length (write_step s o).buf))
read_step-write_step s o rest v = read-write o rest (RoundTrips-step s v)
