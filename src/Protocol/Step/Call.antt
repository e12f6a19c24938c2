-- ===== src/Protocol/Step/Call.antt =====
-- The call steps of internal/protocol/step: ApiCallStep, ApiCallStep2, ApiCallSum, DispatchStep.
use scouter_server_go.Common.{ℕ, List}
use scouter_server_go.Protocol.Word.{IsI32, IsI64, i64_of_i32}
use scouter_server_go.Protocol.Output.{Writer, ◌⨾◌, write_byte, write_int64, write_decimal}
use scouter_server_go.Protocol.Input.{Reader, return, ◌>>=◌, read_byte, read_int64, read_decimal32}
use scouter_server_go.Protocol.Codec.{RoundTrips, RoundTrips-seq, RoundTrips-last}
use scouter_server_go.Protocol.WordCodec.{RoundTrips-byte, RoundTrips-int64}
use scouter_server_go.Protocol.DecimalCodec.{RoundTrips-decimal32}
use scouter_server_go.Protocol.Step.Base.{
  StepSingle, write_step_single, read_step_single, IsStepSingle, RoundTrips-step_single,
  write_opt_text, read_opt_text, IsOptText, RoundTrips-opt_text,
}

pub record ApicallStep : Type 0 where
  pub single : StepSingle
  pub txid : ℕ
  pub hash : ℕ
  pub elapsed : ℕ
  pub cpu_time : ℕ
  pub error : ℕ
  pub opt : ℕ
  pub address : List ℕ

unfoldable pub write_apicall_step : ApicallStep → Writer
write_apicall_step s =
    write_step_single s.single
    ⨾ write_int64 s.txid
    ⨾ write_decimal (i64_of_i32 s.hash)
    ⨾ write_decimal (i64_of_i32 s.elapsed)
    ⨾ write_decimal (i64_of_i32 s.cpu_time)
    ⨾ write_decimal (i64_of_i32 s.error)
    ⨾ write_byte s.opt
    ⨾ write_opt_text s.opt s.address

unfoldable pub read_apicall_step : Reader ApicallStep
read_apicall_step = do
  single ← read_step_single
  txid ← read_int64
  hash ← read_decimal32
  elapsed ← read_decimal32
  cpu_time ← read_decimal32
  error ← read_decimal32
  opt ← read_byte
  address ← read_opt_text opt
  return (record {
    single = single;
    txid = txid;
    hash = hash;
    elapsed = elapsed;
    cpu_time = cpu_time;
    error = error;
    opt = opt;
    address = address;
  })

pub record IsApicallStep (s : ApicallStep) : Type 0 where
  pub single : IsStepSingle s.single
  pub txid : IsI64 s.txid
  pub hash : IsI32 s.hash
  pub elapsed : IsI32 s.elapsed
  pub cpu_time : IsI32 s.cpu_time
  pub error : IsI32 s.error
  pub address : IsOptText s.opt s.address

pub RoundTrips-apicall_step :
    (s : ApicallStep) → IsApicallStep s → RoundTrips (write_apicall_step s) read_apicall_step s
unfolding write_apicall_step read_apicall_step
RoundTrips-apicall_step s v = RoundTrips-seq _ (RoundTrips-step_single s.single v.single) (
    RoundTrips-seq _ (RoundTrips-int64 s.txid v.txid) (
      RoundTrips-seq _ (RoundTrips-decimal32 s.hash v.hash) (
        RoundTrips-seq _ (RoundTrips-decimal32 s.elapsed v.elapsed) (
          RoundTrips-seq _ (RoundTrips-decimal32 s.cpu_time v.cpu_time) (
            RoundTrips-seq _ (RoundTrips-decimal32 s.error v.error) (
              RoundTrips-seq _ (RoundTrips-byte s.opt)
                (RoundTrips-last _ (RoundTrips-opt_text s.opt s.address v.address))))))))

pub record ApicallStep2 : Type 0 where
  pub base : ApicallStep
  pub async : ℕ

unfoldable pub write_apicall_step2 : ApicallStep2 → Writer
write_apicall_step2 s =
    write_step_single s.base.single
    ⨾ write_int64 s.base.txid
    ⨾ write_decimal (i64_of_i32 s.base.hash)
    ⨾ write_decimal (i64_of_i32 s.base.elapsed)
    ⨾ write_decimal (i64_of_i32 s.base.cpu_time)
    ⨾ write_decimal (i64_of_i32 s.base.error)
    ⨾ write_byte s.base.opt
    ⨾ write_opt_text s.base.opt s.base.address
    ⨾ write_byte s.async

unfoldable pub read_apicall_step2 : Reader ApicallStep2
read_apicall_step2 = do
  single ← read_step_single
  txid ← read_int64
  hash ← read_decimal32
  elapsed ← read_decimal32
  cpu_time ← read_decimal32
  error ← read_decimal32
  opt ← read_byte
  address ← read_opt_text opt
  async ← read_byte
  return (record {
    base = record {
      single = single;
      txid = txid;
      hash = hash;
      elapsed = elapsed;
      cpu_time = cpu_time;
      error = error;
      opt = opt;
      address = address;
    };
    async = async;
  })

pub record IsApicallStep2 (s : ApicallStep2) : Type 0 where
  pub single : IsStepSingle s.base.single
  pub txid : IsI64 s.base.txid
  pub hash : IsI32 s.base.hash
  pub elapsed : IsI32 s.base.elapsed
  pub cpu_time : IsI32 s.base.cpu_time
  pub error : IsI32 s.base.error
  pub address : IsOptText s.base.opt s.base.address

pub RoundTrips-apicall_step2 :
    (s : ApicallStep2) → IsApicallStep2 s → RoundTrips (write_apicall_step2 s) read_apicall_step2 s
unfolding write_apicall_step2 read_apicall_step2
RoundTrips-apicall_step2 s v = RoundTrips-seq _ (RoundTrips-step_single s.base.single v.single) (
    RoundTrips-seq _ (RoundTrips-int64 s.base.txid v.txid) (
      RoundTrips-seq _ (RoundTrips-decimal32 s.base.hash v.hash) (
        RoundTrips-seq _ (RoundTrips-decimal32 s.base.elapsed v.elapsed) (
          RoundTrips-seq _ (RoundTrips-decimal32 s.base.cpu_time v.cpu_time) (
            RoundTrips-seq _ (RoundTrips-decimal32 s.base.error v.error) (
              RoundTrips-seq _ (RoundTrips-byte s.base.opt) (
                RoundTrips-seq _ (RoundTrips-opt_text s.base.opt s.base.address v.address)
                  (RoundTrips-last _ (RoundTrips-byte s.async)))))))))

pub record ApicallSum : Type 0 where
  pub hash : ℕ
  pub count : ℕ
  pub elapsed : ℕ
  pub cpu_time : ℕ
  pub error : ℕ

unfoldable pub write_apicall_sum : ApicallSum → Writer
write_apicall_sum s =
    write_decimal (i64_of_i32 s.hash)
    ⨾ write_decimal (i64_of_i32 s.count)
    ⨾ write_decimal (i64_of_i32 s.elapsed)
    ⨾ write_decimal (i64_of_i32 s.cpu_time)
    ⨾ write_decimal (i64_of_i32 s.error)

unfoldable pub read_apicall_sum : Reader ApicallSum
read_apicall_sum = do
  hash ← read_decimal32
  count ← read_decimal32
  elapsed ← read_decimal32
  cpu_time ← read_decimal32
  error ← read_decimal32
  return
      (record { hash = hash; count = count; elapsed = elapsed; cpu_time = cpu_time; error = error })

pub record IsApicallSum (s : ApicallSum) : Type 0 where
  pub hash : IsI32 s.hash
  pub count : IsI32 s.count
  pub elapsed : IsI32 s.elapsed
  pub cpu_time : IsI32 s.cpu_time
  pub error : IsI32 s.error

pub RoundTrips-apicall_sum :
    (s : ApicallSum) → IsApicallSum s → RoundTrips (write_apicall_sum s) read_apicall_sum s
unfolding write_apicall_sum read_apicall_sum
RoundTrips-apicall_sum s v = RoundTrips-seq _ (RoundTrips-decimal32 s.hash v.hash) (
    RoundTrips-seq _ (RoundTrips-decimal32 s.count v.count) (
      RoundTrips-seq _ (RoundTrips-decimal32 s.elapsed v.elapsed) (
        RoundTrips-seq _ (RoundTrips-decimal32 s.cpu_time v.cpu_time)
          (RoundTrips-last _ (RoundTrips-decimal32 s.error v.error)))))

pub record DispatchStep : Type 0 where
  pub single : StepSingle
  pub txid : ℕ
  pub hash : ℕ
  pub elapsed : ℕ
  pub cpu_time : ℕ
  pub error : ℕ
  pub opt : ℕ
  pub address : List ℕ

unfoldable pub write_dispatch_step : DispatchStep → Writer
write_dispatch_step s =
    write_step_single s.single
    ⨾ write_int64 s.txid
    ⨾ write_decimal (i64_of_i32 s.hash)
    ⨾ write_decimal (i64_of_i32 s.elapsed)
    ⨾ write_decimal (i64_of_i32 s.cpu_time)
    ⨾ write_decimal (i64_of_i32 s.error)
    ⨾ write_byte s.opt
    ⨾ write_opt_text s.opt s.address

unfoldable pub read_dispatch_step : Reader DispatchStep
read_dispatch_step = do
  single ← read_step_single
  txid ← read_int64
  hash ← read_decimal32
  elapsed ← read_decimal32
  cpu_time ← read_decimal32
  error ← read_decimal32
  opt ← read_byte
  address ← read_opt_text opt
  return (record {
    single = single;
    txid = txid;
    hash = hash;
    elapsed = elapsed;
    cpu_time = cpu_time;
    error = error;
    opt = opt;
    address = address;
  })

pub record IsDispatchStep (s : DispatchStep) : Type 0 where
  pub single : IsStepSingle s.single
  pub txid : IsI64 s.txid
  pub hash : IsI32 s.hash
  pub elapsed : IsI32 s.elapsed
  pub cpu_time : IsI32 s.cpu_time
  pub error : IsI32 s.error
  pub address : IsOptText s.opt s.address

pub RoundTrips-dispatch_step :
    (s : DispatchStep) → IsDispatchStep s → RoundTrips (write_dispatch_step s) read_dispatch_step s
unfolding write_dispatch_step read_dispatch_step
RoundTrips-dispatch_step s v = RoundTrips-seq _ (RoundTrips-step_single s.single v.single) (
    RoundTrips-seq _ (RoundTrips-int64 s.txid v.txid) (
      RoundTrips-seq _ (RoundTrips-decimal32 s.hash v.hash) (
        RoundTrips-seq _ (RoundTrips-decimal32 s.elapsed v.elapsed) (
          RoundTrips-seq _ (RoundTrips-decimal32 s.cpu_time v.cpu_time) (
            RoundTrips-seq _ (RoundTrips-decimal32 s.error v.error) (
              RoundTrips-seq _ (RoundTrips-byte s.opt)
                (RoundTrips-last _ (RoundTrips-opt_text s.opt s.address v.address))))))))
