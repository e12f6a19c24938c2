-- ===== src/Protocol/Step/Message.antt =====
-- The message steps of internal/protocol/step: MessageStep, ParameterizedMessageStep, MessageSum, StepControl.
use scouter_server_go.Common.{ℕ, List}
use scouter_server_go.Protocol.Word.{IsI32, i64_of_i32}
use scouter_server_go.Protocol.Output.{Writer, ◌⨾◌, write_byte, write_decimal, write_text}
use scouter_server_go.Protocol.Input.{Reader, return, ◌>>=◌, read_byte, read_decimal32, read_text}
use scouter_server_go.Protocol.Codec.{RoundTrips, RoundTrips-seq, RoundTrips-last}
use scouter_server_go.Protocol.WordCodec.{RoundTrips-byte}
use scouter_server_go.Protocol.DecimalCodec.{RoundTrips-decimal32}
use scouter_server_go.Protocol.SliceCodec.{IsBlob, RoundTrips-text}
use scouter_server_go.Protocol.Step.Base.{
  StepSingle, write_step_single, read_step_single, IsStepSingle, RoundTrips-step_single,
}

pub record MessageStep : Type 0 where
  pub single : StepSingle
  pub message : List ℕ

unfoldable pub write_message_step : MessageStep → Writer
write_message_step s = write_step_single s.single ⨾ write_text s.message

unfoldable pub read_message_step : Reader MessageStep
read_message_step = do
  single ← read_step_single
  message ← read_text
  return (record { single = single; message = message })

pub record IsMessageStep (s : MessageStep) : Type 0 where
  pub single : IsStepSingle s.single
  pub message : IsBlob s.message

pub RoundTrips-message_step :
    (s : MessageStep) → IsMessageStep s → RoundTrips (write_message_step s) read_message_step s
unfolding write_message_step read_message_step
RoundTrips-message_step s v =
    RoundTrips-seq _ (RoundTrips-step_single s.single v.single)
      (RoundTrips-last _ (RoundTrips-text s.message v.message))

pub record ParameterizedMessageStep : Type 0 where
  pub single : StepSingle
  pub hash : ℕ
  pub elapsed : ℕ
  pub level : ℕ
  pub param_string : List ℕ

unfoldable pub write_parameterized_message_step : ParameterizedMessageStep → Writer
write_parameterized_message_step s =
    write_step_single s.single
    ⨾ write_decimal (i64_of_i32 s.hash)
    ⨾ write_decimal (i64_of_i32 s.elapsed)
    ⨾ write_byte s.level
    ⨾ write_text s.param_string

unfoldable pub read_parameterized_message_step : Reader ParameterizedMessageStep
read_parameterized_message_step = do
  single ← read_step_single
  hash ← read_decimal32
  elapsed ← read_decimal32
  level ← read_byte
  param_string ← read_text
  return (record {
    single = single;
    hash = hash;
    elapsed = elapsed;
    level = level;
    param_string = param_string;
  })

pub record IsParameterizedMessageStep (s : ParameterizedMessageStep) : Type 0 where
  pub single : IsStepSingle s.single
  pub hash : IsI32 s.hash
  pub elapsed : IsI32 s.elapsed
  pub param_string : IsBlob s.param_string

pub RoundTrips-parameterized_message_step :
    (s : ParameterizedMessageStep)
    → IsParameterizedMessageStep s
    → RoundTrips (write_parameterized_message_step s) read_parameterized_message_step s
unfolding write_parameterized_message_step read_parameterized_message_step
RoundTrips-parameterized_message_step s v =
    RoundTrips-seq _ (RoundTrips-step_single s.single v.single) (
      RoundTrips-seq _ (RoundTrips-decimal32 s.hash v.hash) (
        RoundTrips-seq _ (RoundTrips-decimal32 s.elapsed v.elapsed) (
          RoundTrips-seq _ (RoundTrips-byte s.level)
            (RoundTrips-last _ (RoundTrips-text s.param_string v.param_string)))))

pub record MessageSum : Type 0 where
  pub hash : ℕ
  pub count : ℕ

unfoldable pub write_message_sum : MessageSum → Writer
write_message_sum s = write_decimal (i64_of_i32 s.hash) ⨾ write_decimal (i64_of_i32 s.count)

unfoldable pub read_message_sum : Reader MessageSum
read_message_sum = do
  hash ← read_decimal32
  count ← read_decimal32
  return (record { hash = hash; count = count })

pub record IsMessageSum (s : MessageSum) : Type 0 where
  pub hash : IsI32 s.hash
  pub count : IsI32 s.count

pub RoundTrips-message_sum :
    (s : MessageSum) → IsMessageSum s → RoundTrips (write_message_sum s) read_message_sum s
unfolding write_message_sum read_message_sum
RoundTrips-message_sum s v =
    RoundTrips-seq _ (RoundTrips-decimal32 s.hash v.hash)
      (RoundTrips-last _ (RoundTrips-decimal32 s.count v.count))

pub record StepControl : Type 0 where
  pub single : StepSingle
  pub code : ℕ
  pub message : List ℕ

unfoldable pub write_step_control : StepControl → Writer
write_step_control s = write_step_single s.single ⨾ write_byte s.code ⨾ write_text s.message

unfoldable pub read_step_control : Reader StepControl
read_step_control = do
  single ← read_step_single
  code ← read_byte
  message ← read_text
  return (record { single = single; code = code; message = message })

pub record IsStepControl (s : StepControl) : Type 0 where
  pub single : IsStepSingle s.single
  pub message : IsBlob s.message

pub RoundTrips-step_control :
    (s : StepControl) → IsStepControl s → RoundTrips (write_step_control s) read_step_control s
unfolding write_step_control read_step_control
RoundTrips-step_control s v = RoundTrips-seq _ (RoundTrips-step_single s.single v.single) (
    RoundTrips-seq _ (RoundTrips-byte s.code)
      (RoundTrips-last _ (RoundTrips-text s.message v.message)))
