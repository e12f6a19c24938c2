-- ===== src/Protocol/Pack/Batch.antt =====
-- BatchPack of internal/protocol/pack/batch_pack.go: its fields, wrapped in a blob.
use scouter_server_go.Common.{ℕ, Bool, List}
use scouter_server_go.Protocol.Word.{IsI32, IsI64}
use scouter_server_go.Protocol.Output.{
  Writer, ◌⨾◌, write_boolean, write_int32, write_int64, write_text,
}
use scouter_server_go.Protocol.Input.{
  Reader, return, ◌>>=◌, read_boolean, read_int32, read_int64, read_text,
}
use scouter_server_go.Protocol.Codec.{RoundTrips, RoundTrips-seq, RoundTrips-last}
use scouter_server_go.Protocol.WordCodec.{RoundTrips-boolean, RoundTrips-int32, RoundTrips-int64}
use scouter_server_go.Protocol.SliceCodec.{IsBlob, RoundTrips-text}
use scouter_server_go.Protocol.Pack.Wrapped.{
  inner_bytes, write_wrapped, read_wrapped, RoundTrips-wrapped,
}

pub record BatchPack : Type 0 where
  pub start_time : ℕ
  pub obj_hash : ℕ
  pub batch_job_id : List ℕ
  pub args : List ℕ
  pub pid : ℕ
  pub elapsed_time : ℕ
  pub thread_cnt : ℕ
  pub cpu_time : ℕ
  pub gc_time : ℕ
  pub gc_count : ℕ
  pub sql_total_cnt : ℕ
  pub sql_total_time : ℕ
  pub sql_total_rows : ℕ
  pub sql_total_runs : ℕ
  pub is_stack : Bool
  pub obj_name : List ℕ
  pub obj_type : List ℕ
  pub position : ℕ

unfoldable pub write_batch_fields : BatchPack → Writer
write_batch_fields s =
    write_int64 s.start_time
    ⨾ write_int32 s.obj_hash
    ⨾ write_text s.batch_job_id
    ⨾ write_text s.args
    ⨾ write_int32 s.pid
    ⨾ write_int64 s.elapsed_time
    ⨾ write_int32 s.thread_cnt
    ⨾ write_int64 s.cpu_time
    ⨾ write_int64 s.gc_time
    ⨾ write_int64 s.gc_count
    ⨾ write_int32 s.sql_total_cnt
    ⨾ write_int64 s.sql_total_time
    ⨾ write_int64 s.sql_total_rows
    ⨾ write_int64 s.sql_total_runs
    ⨾ write_boolean s.is_stack
    ⨾ write_text s.obj_name
    ⨾ write_text s.obj_type
    ⨾ write_int64 s.position

unfoldable pub read_batch_fields : Reader BatchPack
read_batch_fields = do
  start_time ← read_int64
  obj_hash ← read_int32
  batch_job_id ← read_text
  args ← read_text
  pid ← read_int32
  elapsed_time ← read_int64
  thread_cnt ← read_int32
  cpu_time ← read_int64
  gc_time ← read_int64
  gc_count ← read_int64
  sql_total_cnt ← read_int32
  sql_total_time ← read_int64
  sql_total_rows ← read_int64
  sql_total_runs ← read_int64
  is_stack ← read_boolean
  obj_name ← read_text
  obj_type ← read_text
  position ← read_int64
  return (record {
    start_time = start_time;
    obj_hash = obj_hash;
    batch_job_id = batch_job_id;
    args = args;
    pid = pid;
    elapsed_time = elapsed_time;
    thread_cnt = thread_cnt;
    cpu_time = cpu_time;
    gc_time = gc_time;
    gc_count = gc_count;
    sql_total_cnt = sql_total_cnt;
    sql_total_time = sql_total_time;
    sql_total_rows = sql_total_rows;
    sql_total_runs = sql_total_runs;
    is_stack = is_stack;
    obj_name = obj_name;
    obj_type = obj_type;
    position = position;
  })

pub record IsBatchFields (s : BatchPack) : Type 0 where
  pub start_time : IsI64 s.start_time
  pub obj_hash : IsI32 s.obj_hash
  pub batch_job_id : IsBlob s.batch_job_id
  pub args : IsBlob s.args
  pub pid : IsI32 s.pid
  pub elapsed_time : IsI64 s.elapsed_time
  pub thread_cnt : IsI32 s.thread_cnt
  pub cpu_time : IsI64 s.cpu_time
  pub gc_time : IsI64 s.gc_time
  pub gc_count : IsI64 s.gc_count
  pub sql_total_cnt : IsI32 s.sql_total_cnt
  pub sql_total_time : IsI64 s.sql_total_time
  pub sql_total_rows : IsI64 s.sql_total_rows
  pub sql_total_runs : IsI64 s.sql_total_runs
  pub obj_name : IsBlob s.obj_name
  pub obj_type : IsBlob s.obj_type
  pub position : IsI64 s.position

pub RoundTrips-batch_fields :
    (s : BatchPack) → IsBatchFields s → RoundTrips (write_batch_fields s) read_batch_fields s
unfolding write_batch_fields read_batch_fields
RoundTrips-batch_fields s v = RoundTrips-seq _ (RoundTrips-int64 s.start_time v.start_time) (
    RoundTrips-seq _ (RoundTrips-int32 s.obj_hash v.obj_hash) (
      RoundTrips-seq _ (RoundTrips-text s.batch_job_id v.batch_job_id) (
        RoundTrips-seq _ (RoundTrips-text s.args v.args) (
          RoundTrips-seq _ (RoundTrips-int32 s.pid v.pid) (
            RoundTrips-seq _ (RoundTrips-int64 s.elapsed_time v.elapsed_time) (
              RoundTrips-seq _ (RoundTrips-int32 s.thread_cnt v.thread_cnt) (
                RoundTrips-seq _ (RoundTrips-int64 s.cpu_time v.cpu_time) (
                  RoundTrips-seq _ (RoundTrips-int64 s.gc_time v.gc_time) (
                    RoundTrips-seq _ (RoundTrips-int64 s.gc_count v.gc_count) (
                      RoundTrips-seq _ (RoundTrips-int32 s.sql_total_cnt v.sql_total_cnt) (
                        RoundTrips-seq _ (RoundTrips-int64 s.sql_total_time v.sql_total_time) (
                          RoundTrips-seq _ (RoundTrips-int64 s.sql_total_rows v.sql_total_rows) (
                            RoundTrips-seq _ (RoundTrips-int64 s.sql_total_runs v.sql_total_runs) (
                              RoundTrips-seq _ (RoundTrips-boolean s.is_stack) (
                                RoundTrips-seq _ (RoundTrips-text s.obj_name v.obj_name) (
                                  RoundTrips-seq _ (RoundTrips-text s.obj_type v.obj_type) (
                                    RoundTrips-last _
                                      (RoundTrips-int64 s.position v.position))))))))))))))))))

unfoldable pub write_batch_pack : BatchPack → Writer
write_batch_pack s = write_wrapped (write_batch_fields s)

unfoldable pub read_batch_pack : Reader BatchPack
read_batch_pack = read_wrapped read_batch_fields

pub record IsBatchPack (s : BatchPack) : Type 0 where
  pub fields : IsBatchFields s
  pub short : IsBlob (inner_bytes (write_batch_fields s))

pub RoundTrips-batch_pack :
    (s : BatchPack) → IsBatchPack s → RoundTrips (write_batch_pack s) read_batch_pack s
unfolding write_batch_pack read_batch_pack
RoundTrips-batch_pack s v = RoundTrips-wrapped (RoundTrips-batch_fields s v.fields) v.short
