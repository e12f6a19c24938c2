-- ===== src/Protocol/Step/Thread.antt =====
-- The thread steps of internal/protocol/step: ThreadSubmitStep, ThreadCallPossibleStep, DumpStep.
use scouter_server_go.Common.{ℕ, ◌^◌, ◌<◌, List, length, All}
use scouter_server_go.Protocol.Word.{IsI32, IsI64, i64_of_i32}
use scouter_server_go.Protocol.Output.{
  Writer, ◌⨾◌, write_byte, write_int64, write_decimal, write_text, write_decimal_int_array,
}
use scouter_server_go.Protocol.Input.{
  Reader, return, ◌>>=◌, read_byte, read_int64, read_decimal32, read_text, read_decimal_int_array,
}
use scouter_server_go.Protocol.Codec.{RoundTrips, RoundTrips-seq, RoundTrips-last}
use scouter_server_go.Protocol.WordCodec.{RoundTrips-byte, RoundTrips-int64}
use scouter_server_go.Protocol.DecimalCodec.{RoundTrips-decimal32}
use scouter_server_go.Protocol.SliceCodec.{IsBlob, RoundTrips-text, RoundTrips-decimal_int_array}
use scouter_server_go.Protocol.Step.Base.{
  StepSingle, write_step_single, read_step_single, IsStepSingle, RoundTrips-step_single,
}

pub record ThreadSubmitStep : Type 0 where
  pub single : StepSingle
  pub txid : ℕ
  pub hash : ℕ
  pub elapsed : ℕ
  pub cpu_time : ℕ
  pub error : ℕ

unfoldable pub write_thread_submit_step : ThreadSubmitStep → Writer
write_thread_submit_step s =
    write_step_single s.single
    ⨾ write_int64 s.txid
    ⨾ write_decimal (i64_of_i32 s.hash)
    ⨾ write_decimal (i64_of_i32 s.elapsed)
    ⨾ write_decimal (i64_of_i32 s.cpu_time)
    ⨾ write_decimal (i64_of_i32 s.error)

unfoldable pub read_thread_submit_step : Reader ThreadSubmitStep
read_thread_submit_step = do
  single ← read_step_single
  txid ← read_int64
  hash ← read_decimal32
  elapsed ← read_decimal32
  cpu_time ← read_decimal32
  error ← read_decimal32
  return (record {
    single = single;
    txid = txid;
    hash = hash;
    elapsed = elapsed;
    cpu_time = cpu_time;
    error = error;
  })

pub record IsThreadSubmitStep (s : ThreadSubmitStep) : Type 0 where
  pub single : IsStepSingle s.single
  pub txid : IsI64 s.txid
  pub hash : IsI32 s.hash
  pub elapsed : IsI32 s.elapsed
  pub cpu_time : IsI32 s.cpu_time
  pub error : IsI32 s.error

pub RoundTrips-thread_submit_step :
    (s : ThreadSubmitStep)
    → IsThreadSubmitStep s
    → RoundTrips (write_thread_submit_step s) read_thread_submit_step s
unfolding write_thread_submit_step read_thread_submit_step
RoundTrips-thread_submit_step s v = RoundTrips-seq _ (RoundTrips-step_single s.single v.single) (
    RoundTrips-seq _ (RoundTrips-int64 s.txid v.txid) (
      RoundTrips-seq _ (RoundTrips-decimal32 s.hash v.hash) (
        RoundTrips-seq _ (RoundTrips-decimal32 s.elapsed v.elapsed) (
          RoundTrips-seq _ (RoundTrips-decimal32 s.cpu_time v.cpu_time)
            (RoundTrips-last _ (RoundTrips-decimal32 s.error v.error))))))

pub record ThreadCallPossibleStep : Type 0 where
  pub single : StepSingle
  pub txid : ℕ
  pub hash : ℕ
  pub elapsed : ℕ
  pub threaded : ℕ

unfoldable pub write_thread_call_possible_step : ThreadCallPossibleStep → Writer
write_thread_call_possible_step s =
    write_step_single s.single
    ⨾ write_int64 s.txid
    ⨾ write_decimal (i64_of_i32 s.hash)
    ⨾ write_decimal (i64_of_i32 s.elapsed)
    ⨾ write_byte s.threaded

unfoldable pub read_thread_call_possible_step : Reader ThreadCallPossibleStep
read_thread_call_possible_step = do
  single ← read_step_single
  txid ← read_int64
  hash ← read_decimal32
  elapsed ← read_decimal32
  threaded ← read_byte
  return
      (record { single = single; txid = txid; hash = hash; elapsed = elapsed; threaded = threaded })

pub record IsThreadCallPossibleStep (s : ThreadCallPossibleStep) : Type 0 where
  pub single : IsStepSingle s.single
  pub txid : IsI64 s.txid
  pub hash : IsI32 s.hash
  pub elapsed : IsI32 s.elapsed

pub RoundTrips-thread_call_possible_step :
    (s : ThreadCallPossibleStep)
    → IsThreadCallPossibleStep s
    → RoundTrips (write_thread_call_possible_step s) read_thread_call_possible_step s
unfolding write_thread_call_possible_step read_thread_call_possible_step
RoundTrips-thread_call_possible_step s v =
    RoundTrips-seq _ (RoundTrips-step_single s.single v.single) (
      RoundTrips-seq _ (RoundTrips-int64 s.txid v.txid) (
        RoundTrips-seq _ (RoundTrips-decimal32 s.hash v.hash) (
          RoundTrips-seq _ (RoundTrips-decimal32 s.elapsed v.elapsed)
            (RoundTrips-last _ (RoundTrips-byte s.threaded)))))

pub record DumpStep : Type 0 where
  pub single : StepSingle
  pub stacks : List ℕ
  pub thread_id : ℕ
  pub thread_name : List ℕ
  pub thread_state : List ℕ
  pub lock_owner_id : ℕ
  pub lock_name : List ℕ
  pub lock_owner_name : List ℕ

unfoldable pub write_dump_step : DumpStep → Writer
write_dump_step s =
    write_step_single s.single
    ⨾ write_decimal_int_array s.stacks
    ⨾ write_int64 s.thread_id
    ⨾ write_text s.thread_name
    ⨾ write_text s.thread_state
    ⨾ write_int64 s.lock_owner_id
    ⨾ write_text s.lock_name
    ⨾ write_text s.lock_owner_name

unfoldable pub read_dump_step : Reader DumpStep
read_dump_step = do
  single ← read_step_single
  stacks ← read_decimal_int_array
  thread_id ← read_int64
  thread_name ← read_text
  thread_state ← read_text
  lock_owner_id ← read_int64
  lock_name ← read_text
  lock_owner_name ← read_text
  return (record {
    single = single;
    stacks = stacks;
    thread_id = thread_id;
    thread_name = thread_name;
    thread_state = thread_state;
    lock_owner_id = lock_owner_id;
    lock_name = lock_name;
    lock_owner_name = lock_owner_name;
  })

pub record IsDumpStep (s : DumpStep) : Type 0 where
  pub single : IsStepSingle s.single
  pub stacks : (length s.stacks < 2 ^ 63) × All IsI32 s.stacks
  pub thread_id : IsI64 s.thread_id
  pub thread_name : IsBlob s.thread_name
  pub thread_state : IsBlob s.thread_state
  pub lock_owner_id : IsI64 s.lock_owner_id
  pub lock_name : IsBlob s.lock_name
  pub lock_owner_name : IsBlob s.lock_owner_name

pub RoundTrips-dump_step :
    (s : DumpStep) → IsDumpStep s → RoundTrips (write_dump_step s) read_dump_step s
unfolding write_dump_step read_dump_step
RoundTrips-dump_step s v = RoundTrips-seq _ (RoundTrips-step_single s.single v.single) (
    RoundTrips-seq _ (RoundTrips-decimal_int_array s.stacks v.stacks.0 v.stacks.1) (
      RoundTrips-seq _ (RoundTrips-int64 s.thread_id v.thread_id) (
        RoundTrips-seq _ (RoundTrips-text s.thread_name v.thread_name) (
          RoundTrips-seq _ (RoundTrips-text s.thread_state v.thread_state) (
            RoundTrips-seq _ (RoundTrips-int64 s.lock_owner_id v.lock_owner_id) (
              RoundTrips-seq _ (RoundTrips-text s.lock_name v.lock_name)
                (RoundTrips-last _ (RoundTrips-text s.lock_owner_name v.lock_owner_name))))))))
