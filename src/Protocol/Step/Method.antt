-- ===== src/Protocol/Step/Method.antt =====
-- The method steps of internal/protocol/step: MethodStep, MethodStep2, MethodSum, HashedMessageStep.
use scouter_server_go.Common.{ℕ}
use scouter_server_go.Protocol.Word.{IsI32, i64_of_i32}
use scouter_server_go.Protocol.Output.{Writer, ◌⨾◌, write_decimal}
use scouter_server_go.Protocol.Input.{Reader, return, ◌>>=◌, read_decimal32}
use scouter_server_go.Protocol.Codec.{RoundTrips, RoundTrips-seq, RoundTrips-last}
use scouter_server_go.Protocol.DecimalCodec.{RoundTrips-decimal32}
use scouter_server_go.Protocol.Step.Base.{
  StepSingle, write_step_single, read_step_single, IsStepSingle, RoundTrips-step_single,
}

pub record MethodStep : Type 0 where
  pub single : StepSingle
  pub hash : ℕ
  pub elapsed : ℕ
  pub cpu_time : ℕ

unfoldable pub write_method_step : MethodStep → Writer
write_method_step s =
    write_step_single s.single
    ⨾ write_decimal (i64_of_i32 s.hash)
    ⨾ write_decimal (i64_of_i32 s.elapsed)
    ⨾ write_decimal (i64_of_i32 s.cpu_time)

unfoldable pub read_method_step : Reader MethodStep
read_method_step = do
  single ← read_step_single
  hash ← read_decimal32
  elapsed ← read_decimal32
  cpu_time ← read_decimal32
  return (record { single = single; hash = hash; elapsed = elapsed; cpu_time = cpu_time })

pub record IsMethodStep (s : MethodStep) : Type 0 where
  pub single : IsStepSingle s.single
  pub hash : IsI32 s.hash
  pub elapsed : IsI32 s.elapsed
  pub cpu_time : IsI32 s.cpu_time

pub RoundTrips-method_step :
    (s : MethodStep) → IsMethodStep s → RoundTrips (write_method_step s) read_method_step s
unfolding write_method_step read_method_step
RoundTrips-method_step s v = RoundTrips-seq _ (RoundTrips-step_single s.single v.single) (
    RoundTrips-seq _ (RoundTrips-decimal32 s.hash v.hash) (
      RoundTrips-seq _ (RoundTrips-decimal32 s.elapsed v.elapsed)
        (RoundTrips-last _ (RoundTrips-decimal32 s.cpu_time v.cpu_time))))

pub record MethodStep2 : Type 0 where
  pub base : MethodStep
  pub error : ℕ

unfoldable pub write_method_step2 : MethodStep2 → Writer
write_method_step2 s =
    write_step_single s.base.single
    ⨾ write_decimal (i64_of_i32 s.base.hash)
    ⨾ write_decimal (i64_of_i32 s.base.elapsed)
    ⨾ write_decimal (i64_of_i32 s.base.cpu_time)
    ⨾ write_decimal (i64_of_i32 s.error)

unfoldable pub read_method_step2 : Reader MethodStep2
read_method_step2 = do
  single ← read_step_single
  hash ← read_decimal32
  elapsed ← read_decimal32
  cpu_time ← read_decimal32
  error ← read_decimal32
  return (record {
    base = record { single = single; hash = hash; elapsed = elapsed; cpu_time = cpu_time };
    error = error;
  })

pub record IsMethodStep2 (s : MethodStep2) : Type 0 where
  pub single : IsStepSingle s.base.single
  pub hash : IsI32 s.base.hash
  pub elapsed : IsI32 s.base.elapsed
  pub cpu_time : IsI32 s.base.cpu_time
  pub error : IsI32 s.error

pub RoundTrips-method_step2 :
    (s : MethodStep2) → IsMethodStep2 s → RoundTrips (write_method_step2 s) read_method_step2 s
unfolding write_method_step2 read_method_step2
RoundTrips-method_step2 s v = RoundTrips-seq _ (RoundTrips-step_single s.base.single v.single) (
    RoundTrips-seq _ (RoundTrips-decimal32 s.base.hash v.hash) (
      RoundTrips-seq _ (RoundTrips-decimal32 s.base.elapsed v.elapsed) (
        RoundTrips-seq _ (RoundTrips-decimal32 s.base.cpu_time v.cpu_time)
          (RoundTrips-last _ (RoundTrips-decimal32 s.error v.error)))))

pub record MethodSum : Type 0 where
  pub hash : ℕ
  pub count : ℕ
  pub elapsed : ℕ
  pub cpu_time : ℕ

unfoldable pub write_method_sum : MethodSum → Writer
write_method_sum s =
    write_decimal (i64_of_i32 s.hash)
    ⨾ write_decimal (i64_of_i32 s.count)
    ⨾ write_decimal (i64_of_i32 s.elapsed)
    ⨾ write_decimal (i64_of_i32 s.cpu_time)

unfoldable pub read_method_sum : Reader MethodSum
read_method_sum = do
  hash ← read_decimal32
  count ← read_decimal32
  elapsed ← read_decimal32
  cpu_time ← read_decimal32
  return (record { hash = hash; count = count; elapsed = elapsed; cpu_time = cpu_time })

pub record IsMethodSum (s : MethodSum) : Type 0 where
  pub hash : IsI32 s.hash
  pub count : IsI32 s.count
  pub elapsed : IsI32 s.elapsed
  pub cpu_time : IsI32 s.cpu_time

pub RoundTrips-method_sum :
    (s : MethodSum) → IsMethodSum s → RoundTrips (write_method_sum s) read_method_sum s
unfolding write_method_sum read_method_sum
RoundTrips-method_sum s v = RoundTrips-seq _ (RoundTrips-decimal32 s.hash v.hash) (
    RoundTrips-seq _ (RoundTrips-decimal32 s.count v.count) (
      RoundTrips-seq _ (RoundTrips-decimal32 s.elapsed v.elapsed)
        (RoundTrips-last _ (RoundTrips-decimal32 s.cpu_time v.cpu_time))))

pub record HashedMessageStep : Type 0 where
  pub single : StepSingle
  pub hash : ℕ
  pub time : ℕ
  pub value : ℕ

unfoldable pub write_hashed_message_step : HashedMessageStep → Writer
write_hashed_message_step s =
    write_step_single s.single
    ⨾ write_decimal (i64_of_i32 s.hash)
    ⨾ write_decimal (i64_of_i32 s.time)
    ⨾ write_decimal (i64_of_i32 s.value)

unfoldable pub read_hashed_message_step : Reader HashedMessageStep
read_hashed_message_step = do
  single ← read_step_single
  hash ← read_decimal32
  time ← read_decimal32
  value ← read_decimal32
  return (record { single = single; hash = hash; time = time; value = value })

pub record IsHashedMessageStep (s : HashedMessageStep) : Type 0 where
  pub single : IsStepSingle s.single
  pub hash : IsI32 s.hash
  pub time : IsI32 s.time
  pub value : IsI32 s.value

pub RoundTrips-hashed_message_step :
    (s : HashedMessageStep)
    → IsHashedMessageStep s
    → RoundTrips (write_hashed_message_step s) read_hashed_message_step s
unfolding write_hashed_message_step read_hashed_message_step
RoundTrips-hashed_message_step s v = RoundTrips-seq _ (RoundTrips-step_single s.single v.single) (
    RoundTrips-seq _ (RoundTrips-decimal32 s.hash v.hash) (
      RoundTrips-seq _ (RoundTrips-decimal32 s.time v.time)
        (RoundTrips-last _ (RoundTrips-decimal32 s.value v.value))))
