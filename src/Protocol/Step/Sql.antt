-- ===== src/Protocol/Step/Sql.antt =====
-- The SQL steps of internal/protocol/step: SqlStep, SqlStep2, SqlStep3, SqlSum.
use scouter_server_go.Common.{ℕ, List}
use scouter_server_go.Protocol.Word.{IsI32, i64_of_i32}
use scouter_server_go.Protocol.Output.{Writer, ◌⨾◌, write_byte, write_decimal, write_text}
use scouter_server_go.Protocol.Input.{Reader, return, ◌>>=◌, read_byte, read_decimal32, read_text}
use scouter_server_go.Protocol.Codec.{RoundTrips, RoundTrips-seq, RoundTrips-last}
use scouter_server_go.Protocol.WordCodec.{RoundTrips-byte}
use scouter_server_go.Protocol.DecimalCodec.{RoundTrips-decimal32}
use scouter_server_go.Protocol.SliceCodec.{IsBlob, RoundTrips-text}
use scouter_server_go.Protocol.Step.Base.{
  StepSingle, write_step_single, read_step_single, IsStepSingle, RoundTrips-step_single,
}

pub record SqlStep : Type 0 where
  pub single : StepSingle
  pub hash : ℕ
  pub elapsed : ℕ
  pub cpu_time : ℕ
  pub param : List ℕ
  pub error : ℕ

unfoldable pub write_sql_step : SqlStep → Writer
write_sql_step s =
    write_step_single s.single
    ⨾ write_decimal (i64_of_i32 s.hash)
    ⨾ write_decimal (i64_of_i32 s.elapsed)
    ⨾ write_decimal (i64_of_i32 s.cpu_time)
    ⨾ write_text s.param
    ⨾ write_decimal (i64_of_i32 s.error)

unfoldable pub read_sql_step : Reader SqlStep
read_sql_step = do
  single ← read_step_single
  hash ← read_decimal32
  elapsed ← read_decimal32
  cpu_time ← read_decimal32
  param ← read_text
  error ← read_decimal32
  return (record {
    single = single;
    hash = hash;
    elapsed = elapsed;
    cpu_time = cpu_time;
    param = param;
    error = error;
  })

pub record IsSqlStep (s : SqlStep) : Type 0 where
  pub single : IsStepSingle s.single
  pub hash : IsI32 s.hash
  pub elapsed : IsI32 s.elapsed
  pub cpu_time : IsI32 s.cpu_time
  pub param : IsBlob s.param
  pub error : IsI32 s.error

pub RoundTrips-sql_step :
    (s : SqlStep) → IsSqlStep s → RoundTrips (write_sql_step s) read_sql_step s
unfolding write_sql_step read_sql_step
RoundTrips-sql_step s v = RoundTrips-seq _ (RoundTrips-step_single s.single v.single) (
    RoundTrips-seq _ (RoundTrips-decimal32 s.hash v.hash) (
      RoundTrips-seq _ (RoundTrips-decimal32 s.elapsed v.elapsed) (
        RoundTrips-seq _ (RoundTrips-decimal32 s.cpu_time v.cpu_time) (
          RoundTrips-seq _ (RoundTrips-text s.param v.param)
            (RoundTrips-last _ (RoundTrips-decimal32 s.error v.error))))))

pub record SqlStep2 : Type 0 where
  pub base : SqlStep
  pub xtype : ℕ

unfoldable pub write_sql_step2 : SqlStep2 → Writer
write_sql_step2 s =
    write_step_single s.base.single
    ⨾ write_decimal (i64_of_i32 s.base.hash)
    ⨾ write_decimal (i64_of_i32 s.base.elapsed)
    ⨾ write_decimal (i64_of_i32 s.base.cpu_time)
    ⨾ write_text s.base.param
    ⨾ write_decimal (i64_of_i32 s.base.error)
    ⨾ write_byte s.xtype

unfoldable pub read_sql_step2 : Reader SqlStep2
read_sql_step2 = do
  single ← read_step_single
  hash ← read_decimal32
  elapsed ← read_decimal32
  cpu_time ← read_decimal32
  param ← read_text
  error ← read_decimal32
  xtype ← read_byte
  return (record {
    base = record {
      single = single;
      hash = hash;
      elapsed = elapsed;
      cpu_time = cpu_time;
      param = param;
      error = error;
    };
    xtype = xtype;
  })

pub record IsSqlStep2 (s : SqlStep2) : Type 0 where
  pub single : IsStepSingle s.base.single
  pub hash : IsI32 s.base.hash
  pub elapsed : IsI32 s.base.elapsed
  pub cpu_time : IsI32 s.base.cpu_time
  pub param : IsBlob s.base.param
  pub error : IsI32 s.base.error

pub RoundTrips-sql_step2 :
    (s : SqlStep2) → IsSqlStep2 s → RoundTrips (write_sql_step2 s) read_sql_step2 s
unfolding write_sql_step2 read_sql_step2
RoundTrips-sql_step2 s v = RoundTrips-seq _ (RoundTrips-step_single s.base.single v.single) (
    RoundTrips-seq _ (RoundTrips-decimal32 s.base.hash v.hash) (
      RoundTrips-seq _ (RoundTrips-decimal32 s.base.elapsed v.elapsed) (
        RoundTrips-seq _ (RoundTrips-decimal32 s.base.cpu_time v.cpu_time) (
          RoundTrips-seq _ (RoundTrips-text s.base.param v.param) (
            RoundTrips-seq _ (RoundTrips-decimal32 s.base.error v.error)
              (RoundTrips-last _ (RoundTrips-byte s.xtype)))))))

pub record SqlStep3 : Type 0 where
  pub base : SqlStep2
  pub updated : ℕ

unfoldable pub write_sql_step3 : SqlStep3 → Writer
write_sql_step3 s =
    write_step_single s.base.base.single
    ⨾ write_decimal (i64_of_i32 s.base.base.hash)
    ⨾ write_decimal (i64_of_i32 s.base.base.elapsed)
    ⨾ write_decimal (i64_of_i32 s.base.base.cpu_time)
    ⨾ write_text s.base.base.param
    ⨾ write_decimal (i64_of_i32 s.base.base.error)
    ⨾ write_byte s.base.xtype
    ⨾ write_decimal (i64_of_i32 s.updated)

unfoldable pub read_sql_step3 : Reader SqlStep3
read_sql_step3 = do
  single ← read_step_single
  hash ← read_decimal32
  elapsed ← read_decimal32
  cpu_time ← read_decimal32
  param ← read_text
  error ← read_decimal32
  xtype ← read_byte
  updated ← read_decimal32
  return (record {
    base = record {
      base = record {
        single = single;
        hash = hash;
        elapsed = elapsed;
        cpu_time = cpu_time;
        param = param;
        error = error;
      };
      xtype = xtype;
    };
    updated = updated;
  })

pub record IsSqlStep3 (s : SqlStep3) : Type 0 where
  pub single : IsStepSingle s.base.base.single
  pub hash : IsI32 s.base.base.hash
  pub elapsed : IsI32 s.base.base.elapsed
  pub cpu_time : IsI32 s.base.base.cpu_time
  pub param : IsBlob s.base.base.param
  pub error : IsI32 s.base.base.error
  pub updated : IsI32 s.updated

pub RoundTrips-sql_step3 :
    (s : SqlStep3) → IsSqlStep3 s → RoundTrips (write_sql_step3 s) read_sql_step3 s
unfolding write_sql_step3 read_sql_step3
RoundTrips-sql_step3 s v = RoundTrips-seq _ (RoundTrips-step_single s.base.base.single v.single) (
    RoundTrips-seq _ (RoundTrips-decimal32 s.base.base.hash v.hash) (
      RoundTrips-seq _ (RoundTrips-decimal32 s.base.base.elapsed v.elapsed) (
        RoundTrips-seq _ (RoundTrips-decimal32 s.base.base.cpu_time v.cpu_time) (
          RoundTrips-seq _ (RoundTrips-text s.base.base.param v.param) (
            RoundTrips-seq _ (RoundTrips-decimal32 s.base.base.error v.error) (
              RoundTrips-seq _ (RoundTrips-byte s.base.xtype)
                (RoundTrips-last _ (RoundTrips-decimal32 s.updated v.updated))))))))

pub record SqlSum : Type 0 where
  pub hash : ℕ
  pub count : ℕ
  pub elapsed : ℕ
  pub cpu_time : ℕ
  pub error : ℕ
  pub param : List ℕ
  pub param_error : List ℕ

unfoldable pub write_sql_sum : SqlSum → Writer
write_sql_sum s =
    write_decimal (i64_of_i32 s.hash)
    ⨾ write_decimal (i64_of_i32 s.count)
    ⨾ write_decimal (i64_of_i32 s.elapsed)
    ⨾ write_decimal (i64_of_i32 s.cpu_time)
    ⨾ write_decimal (i64_of_i32 s.error)
    ⨾ write_text s.param
    ⨾ write_text s.param_error

unfoldable pub read_sql_sum : Reader SqlSum
read_sql_sum = do
  hash ← read_decimal32
  count ← read_decimal32
  elapsed ← read_decimal32
  cpu_time ← read_decimal32
  error ← read_decimal32
  param ← read_text
  param_error ← read_text
  return (record {
    hash = hash;
    count = count;
    elapsed = elapsed;
    cpu_time = cpu_time;
    error = error;
    param = param;
    param_error = param_error;
  })

pub record IsSqlSum (s : SqlSum) : Type 0 where
  pub hash : IsI32 s.hash
  pub count : IsI32 s.count
  pub elapsed : IsI32 s.elapsed
  pub cpu_time : IsI32 s.cpu_time
  pub error : IsI32 s.error
  pub param : IsBlob s.param
  pub param_error : IsBlob s.param_error

pub RoundTrips-sql_sum : (s : SqlSum) → IsSqlSum s → RoundTrips (write_sql_sum s) read_sql_sum s
unfolding write_sql_sum read_sql_sum
RoundTrips-sql_sum s v = RoundTrips-seq _ (RoundTrips-decimal32 s.hash v.hash) (
    RoundTrips-seq _ (RoundTrips-decimal32 s.count v.count) (
      RoundTrips-seq _ (RoundTrips-decimal32 s.elapsed v.elapsed) (
        RoundTrips-seq _ (RoundTrips-decimal32 s.cpu_time v.cpu_time) (
          RoundTrips-seq _ (RoundTrips-decimal32 s.error v.error) (
            RoundTrips-seq _ (RoundTrips-text s.param v.param)
              (RoundTrips-last _ (RoundTrips-text s.param_error v.param_error)))))))
