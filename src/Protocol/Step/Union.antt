-- ===== src/Protocol/Step/Union.antt =====
-- The interface Step of internal/protocol/step/step.go: the type codes, CreateStep, WriteStep and
-- ReadStep.
use scouter_server_go.Common.{ℕ, ◌==◌, Option, none, some, if◌then◌else◌}
use scouter_server_go.Protocol.Output.{Writer, ◌⨾◌, write_byte}
use scouter_server_go.Protocol.Input.{Reader, return, ◌>>=◌, read_byte, read_created}
use scouter_server_go.Protocol.Step.Method.{
  MethodStep, write_method_step, read_method_step, MethodStep2, write_method_step2,
  read_method_step2, HashedMessageStep, write_hashed_message_step, read_hashed_message_step,
  MethodSum, write_method_sum, read_method_sum,
}
use scouter_server_go.Protocol.Step.Message.{
  MessageStep, write_message_step, read_message_step, ParameterizedMessageStep,
  write_parameterized_message_step, read_parameterized_message_step, MessageSum, write_message_sum,
  read_message_sum, StepControl, write_step_control, read_step_control,
}
use scouter_server_go.Protocol.Step.Sql.{
  SqlStep, write_sql_step, read_sql_step, SqlStep2, write_sql_step2, read_sql_step2, SqlStep3,
  write_sql_step3, read_sql_step3, SqlSum, write_sql_sum, read_sql_sum,
}
use scouter_server_go.Protocol.Step.Call.{
  ApicallStep, write_apicall_step, read_apicall_step, ApicallStep2, write_apicall_step2,
  read_apicall_step2, DispatchStep, write_dispatch_step, read_dispatch_step, ApicallSum,
  write_apicall_sum, read_apicall_sum,
}
use scouter_server_go.Protocol.Step.Thread.{
  ThreadSubmitStep, write_thread_submit_step, read_thread_submit_step, ThreadCallPossibleStep,
  write_thread_call_possible_step, read_thread_call_possible_step, DumpStep, write_dump_step,
  read_dump_step,
}
use scouter_server_go.Protocol.Step.Socket.{
  SocketStep, write_socket_step, read_socket_step, SocketSum, write_socket_sum, read_socket_sum,
}
use scouter_server_go.Protocol.Step.Span.{
  SpanStep, write_span_step, read_span_step, SpanCallStep, write_span_call_step,
  read_span_call_step,
}

pub data Step : Type 0 where
  method_step : MethodStep → Step
  method_step2 : MethodStep2 → Step
  sql_step : SqlStep → Step
  sql_step2 : SqlStep2 → Step
  sql_step3 : SqlStep3 → Step
  message_step : MessageStep → Step
  socket_step : SocketStep → Step
  apicall_step : ApicallStep → Step
  apicall_step2 : ApicallStep2 → Step
  dispatch_step : DispatchStep → Step
  thread_submit_step : ThreadSubmitStep → Step
  thread_call_possible_step : ThreadCallPossibleStep → Step
  hashed_message_step : HashedMessageStep → Step
  parameterized_message_step : ParameterizedMessageStep → Step
  dump_step : DumpStep → Step
  method_sum : MethodSum → Step
  sql_sum : SqlSum → Step
  message_sum : MessageSum → Step
  socket_sum : SocketSum → Step
  apicall_sum : ApicallSum → Step
  span_step : SpanStep → Step
  span_call_step : SpanCallStep → Step
  step_control : StepControl → Step

abbrev pub step_type : Step → ℕ
step_type (method_step s) = 1
step_type (method_step2 s) = 10
step_type (sql_step s) = 2
step_type (sql_step2 s) = 8
step_type (sql_step3 s) = 16
step_type (message_step s) = 3
step_type (socket_step s) = 5
step_type (apicall_step s) = 6
step_type (apicall_step2 s) = 15
step_type (dispatch_step s) = 13
step_type (thread_submit_step s) = 7
step_type (thread_call_possible_step s) = 14
step_type (hashed_message_step s) = 9
step_type (parameterized_message_step s) = 17
step_type (dump_step s) = 12
step_type (method_sum s) = 11
step_type (sql_sum s) = 21
step_type (message_sum s) = 31
step_type (socket_sum s) = 42
step_type (apicall_sum s) = 43
step_type (span_step s) = 51
step_type (span_call_step s) = 52
step_type (step_control s) = 99

-- The method `Write` of each type.
unfoldable pub write_step_body : Step → Writer
write_step_body (method_step s) = write_method_step s
write_step_body (method_step2 s) = write_method_step2 s
write_step_body (sql_step s) = write_sql_step s
write_step_body (sql_step2 s) = write_sql_step2 s
write_step_body (sql_step3 s) = write_sql_step3 s
write_step_body (message_step s) = write_message_step s
write_step_body (socket_step s) = write_socket_step s
write_step_body (apicall_step s) = write_apicall_step s
write_step_body (apicall_step2 s) = write_apicall_step2 s
write_step_body (dispatch_step s) = write_dispatch_step s
write_step_body (thread_submit_step s) = write_thread_submit_step s
write_step_body (thread_call_possible_step s) = write_thread_call_possible_step s
write_step_body (hashed_message_step s) = write_hashed_message_step s
write_step_body (parameterized_message_step s) = write_parameterized_message_step s
write_step_body (dump_step s) = write_dump_step s
write_step_body (method_sum s) = write_method_sum s
write_step_body (sql_sum s) = write_sql_sum s
write_step_body (message_sum s) = write_message_sum s
write_step_body (socket_sum s) = write_socket_sum s
write_step_body (apicall_sum s) = write_apicall_sum s
write_step_body (span_step s) = write_span_step s
write_step_body (span_call_step s) = write_span_call_step s
write_step_body (step_control s) = write_step_control s

unfoldable pub write_step : Step → Writer
write_step s = write_byte (step_type s) ⨾ write_step_body s

-- The method `Read` of the step that CreateStep makes of a type code, if it makes one.
unfoldable pub create_step : ℕ → Option (Reader Step)
create_step t =
    if t == 1
    then some (do s ← read_method_step; return (method_step s))
    else if t == 10
    then some (do s ← read_method_step2; return (method_step2 s))
    else if t == 2
    then some (do s ← read_sql_step; return (sql_step s))
    else if t == 8
    then some (do s ← read_sql_step2; return (sql_step2 s))
    else if t == 16
    then some (do s ← read_sql_step3; return (sql_step3 s))
    else if t == 3
    then some (do s ← read_message_step; return (message_step s))
    else if t == 5
    then some (do s ← read_socket_step; return (socket_step s))
    else if t == 6
    then some (do s ← read_apicall_step; return (apicall_step s))
    else if t == 15
    then some (do s ← read_apicall_step2; return (apicall_step2 s))
    else if t == 13
    then some (do s ← read_dispatch_step; return (dispatch_step s))
    else if t == 7
    then some (do s ← read_thread_submit_step; return (thread_submit_step s))
    else if t == 14
    then some (do s ← read_thread_call_possible_step; return (thread_call_possible_step s))
    else if t == 9
    then some (do s ← read_hashed_message_step; return (hashed_message_step s))
    else if t == 17
    then some (do s ← read_parameterized_message_step; return (parameterized_message_step s))
    else if t == 12
    then some (do s ← read_dump_step; return (dump_step s))
    else if t == 11
    then some (do s ← read_method_sum; return (method_sum s))
    else if t == 21
    then some (do s ← read_sql_sum; return (sql_sum s))
    else if t == 31
    then some (do s ← read_message_sum; return (message_sum s))
    else if t == 42
    then some (do s ← read_socket_sum; return (socket_sum s))
    else if t == 43
    then some (do s ← read_apicall_sum; return (apicall_sum s))
    else if t == 51
    then some (do s ← read_span_step; return (span_step s))
    else if t == 52
    then some (do s ← read_span_call_step; return (span_call_step s))
    else if t == 99
    then some (do s ← read_step_control; return (step_control s))
    else none

unfoldable pub read_step : Reader Step
read_step = do t ← read_byte; read_created t (create_step t)
