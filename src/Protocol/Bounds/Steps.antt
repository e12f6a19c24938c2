-- ===== src/Protocol/Bounds/Steps.antt =====
-- ReadStep stays within the buffer.
use scouter_server_go.Common.{ℕ, ◌<◌, ◌≤◌, ◌≡◌, ◌==◌, [], length}
use scouter_server_go.Protocol.Input.{DataInputX, ok}
use scouter_server_go.Protocol.Bounds.{
  InBounds, InBounds-return, InBounds-bind, InBounds-if, InBounds-byte, InBounds-created,
  byte-forward, CreatesInBounds, created_if,
}
use scouter_server_go.Protocol.Bounds.Words.{reads, InBounds-text}
use scouter_server_go.Protocol.Step.Base.{read_step_single, read_opt_text}
use scouter_server_go.Protocol.Step.Span.{read_common_span, read_span_step, read_span_call_step}
use scouter_server_go.Protocol.Step.Method.{
  read_method_step, read_method_step2, read_hashed_message_step, read_method_sum,
}
use scouter_server_go.Protocol.Step.Sql.{
  read_sql_step, read_sql_step2, read_sql_step3, read_sql_sum,
}
use scouter_server_go.Protocol.Step.Message.{
  read_message_step, read_parameterized_message_step, read_message_sum, read_step_control,
}
use scouter_server_go.Protocol.Step.Thread.{
  read_thread_submit_step, read_thread_call_possible_step, read_dump_step,
}
use scouter_server_go.Protocol.Step.Socket.{read_socket_step, read_socket_sum}
use scouter_server_go.Protocol.Step.Call.{
  read_apicall_step, read_apicall_step2, read_dispatch_step, read_apicall_sum,
}
use scouter_server_go.Protocol.Step.Union.{Step, create_step, read_step}

InBounds-step_single : InBounds read_step_single
unfolding read_step_single
InBounds-step_single = search reads depth 20

InBounds-opt_text : (opt : ℕ) → InBounds (read_opt_text opt)
unfolding read_opt_text
InBounds-opt_text opt = InBounds-if (opt == 1) InBounds-text (InBounds-return [])

InBounds-common_span : InBounds read_common_span
unfolding read_common_span
InBounds-common_span = search (reads, InBounds-step_single) depth 40

ruleset step_reads = (reads, InBounds-step_single, InBounds-opt_text, InBounds-common_span)

InBounds-method_step : InBounds read_method_step
unfolding read_method_step
InBounds-method_step = search step_reads depth 40

InBounds-method_step2 : InBounds read_method_step2
unfolding read_method_step2
InBounds-method_step2 = search step_reads depth 40

InBounds-sql_step : InBounds read_sql_step
unfolding read_sql_step
InBounds-sql_step = search step_reads depth 40

InBounds-sql_step2 : InBounds read_sql_step2
unfolding read_sql_step2
InBounds-sql_step2 = search step_reads depth 40

InBounds-sql_step3 : InBounds read_sql_step3
unfolding read_sql_step3
InBounds-sql_step3 = search step_reads depth 40

InBounds-message_step : InBounds read_message_step
unfolding read_message_step
InBounds-message_step = search step_reads depth 40

InBounds-socket_step : InBounds read_socket_step
unfolding read_socket_step
InBounds-socket_step = search step_reads depth 40

InBounds-apicall_step : InBounds read_apicall_step
unfolding read_apicall_step
InBounds-apicall_step = search step_reads depth 40

InBounds-apicall_step2 : InBounds read_apicall_step2
unfolding read_apicall_step2
InBounds-apicall_step2 = search step_reads depth 40

InBounds-dispatch_step : InBounds read_dispatch_step
unfolding read_dispatch_step
InBounds-dispatch_step = search step_reads depth 40

InBounds-thread_submit_step : InBounds read_thread_submit_step
unfolding read_thread_submit_step
InBounds-thread_submit_step = search step_reads depth 40

InBounds-thread_call_possible_step : InBounds read_thread_call_possible_step
unfolding read_thread_call_possible_step
InBounds-thread_call_possible_step = search step_reads depth 40

InBounds-hashed_message_step : InBounds read_hashed_message_step
unfolding read_hashed_message_step
InBounds-hashed_message_step = search step_reads depth 40

InBounds-parameterized_message_step : InBounds read_parameterized_message_step
unfolding read_parameterized_message_step
InBounds-parameterized_message_step = search step_reads depth 40

InBounds-dump_step : InBounds read_dump_step
unfolding read_dump_step
InBounds-dump_step = search step_reads depth 40

InBounds-method_sum : InBounds read_method_sum
unfolding read_method_sum
InBounds-method_sum = search step_reads depth 40

InBounds-sql_sum : InBounds read_sql_sum
unfolding read_sql_sum
InBounds-sql_sum = search step_reads depth 40

InBounds-message_sum : InBounds read_message_sum
unfolding read_message_sum
InBounds-message_sum = search step_reads depth 40

InBounds-socket_sum : InBounds read_socket_sum
unfolding read_socket_sum
InBounds-socket_sum = search step_reads depth 40

InBounds-apicall_sum : InBounds read_apicall_sum
unfolding read_apicall_sum
InBounds-apicall_sum = search step_reads depth 40

InBounds-span_step : InBounds read_span_step
unfolding read_span_step
InBounds-span_step = search step_reads depth 40

InBounds-span_call_step : InBounds read_span_call_step
unfolding read_span_call_step
InBounds-span_call_step = search step_reads depth 40

InBounds-step_control : InBounds read_step_control
unfolding read_step_control
InBounds-step_control = search step_reads depth 40

create_step-InBounds : (t : ℕ) → CreatesInBounds (create_step t)
unfolding create_step
create_step-InBounds t =
    created_if (t == 1) _ (InBounds-bind InBounds-method_step (λ s. InBounds-return _)) (
      created_if (t == 10) _ (InBounds-bind InBounds-method_step2 (λ s. InBounds-return _)) (
        created_if (t == 2) _ (InBounds-bind InBounds-sql_step (λ s. InBounds-return _)) (
          created_if (t == 8) _ (InBounds-bind InBounds-sql_step2 (λ s. InBounds-return _)) (
            created_if (t == 16) _ (InBounds-bind InBounds-sql_step3 (λ s. InBounds-return _)) (
              created_if (t == 3) _ (InBounds-bind InBounds-message_step (λ s. InBounds-return _)) (
                created_if (t == 5) _ (InBounds-bind InBounds-socket_step (λ s. InBounds-return _))
                  (created_if (t == 6) _
                    (InBounds-bind InBounds-apicall_step (λ s. InBounds-return _))
                    (created_if (t == 15) _
                      (InBounds-bind InBounds-apicall_step2 (λ s. InBounds-return _))
                      (created_if (t == 13) _
                        (InBounds-bind InBounds-dispatch_step (λ s. InBounds-return _))
                        (created_if (t == 7) _
                          (InBounds-bind InBounds-thread_submit_step (λ s. InBounds-return _))
                          (created_if (t == 14) _
                            (InBounds-bind InBounds-thread_call_possible_step
                              (λ s. InBounds-return _))
                            (created_if (t == 9) _
                              (InBounds-bind InBounds-hashed_message_step (λ s. InBounds-return _))
                              (created_if (t == 17) _
                                (InBounds-bind InBounds-parameterized_message_step
                                  (λ s. InBounds-return _))
                                (created_if (t == 12) _
                                  (InBounds-bind InBounds-dump_step (λ s. InBounds-return _))
                                  (created_if (t == 11) _
                                    (InBounds-bind InBounds-method_sum (λ s. InBounds-return _))
                                    (created_if (t == 21) _
                                      (InBounds-bind InBounds-sql_sum (λ s. InBounds-return _))
                                      (created_if (t == 31) _
                                        (InBounds-bind InBounds-message_sum
                                          (λ s. InBounds-return _))
                                        (created_if (t == 42) _
                                          (InBounds-bind InBounds-socket_sum
                                            (λ s. InBounds-return _))
                                          (created_if (t == 43) _
                                            (InBounds-bind InBounds-apicall_sum
                                              (λ s. InBounds-return _))
                                            (created_if (t == 51) _
                                              (InBounds-bind InBounds-span_step
                                                (λ s. InBounds-return _))
                                              (created_if (t == 52) _
                                                (InBounds-bind InBounds-span_call_step
                                                  (λ s. InBounds-return _))
                                                (created_if (t == 99) _
                                                  (InBounds-bind InBounds-step_control
                                                    (λ s. InBounds-return _))
                                                  (tt)))))))))))))))))))))))

pub InBounds-step : InBounds read_step
unfolding read_step
InBounds-step =
    InBounds-bind InBounds-byte (λ t. InBounds-created t (create_step t) (create_step-InBounds t))

-- Whatever the bytes are, from any offset within the buffer: a step that is read leaves the buffer
-- as it was, and the offset moves forward by a byte at least and not past the end.
pub read_step_bounds :
    (d e : DataInputX) (s : Step)
    → d.offset ≤ length d.buf
    → read_step d ≡ ok (s, e)
    → (e.buf ≡ d.buf) × (d.offset < e.offset) × (e.offset ≤ length d.buf)
unfolding read_step
read_step_bounds d e s h eq =
    let forward = byte-forward _ d e s (λ t. InBounds-created t _ (create_step-InBounds t)) h eq in
    let m = InBounds-step.moves d e s h eq in (m.same, forward, m.inside)
