-- ===== src/Protocol/Step/Socket.antt =====
-- The socket steps of internal/protocol/step: SocketStep, SocketSum.
use scouter_server_go.Common.{ℕ, List}
use scouter_server_go.Protocol.Word.{IsI32, i64_of_i32}
use scouter_server_go.Protocol.Output.{Writer, ◌⨾◌, write_decimal, write_blob}
use scouter_server_go.Protocol.Input.{Reader, return, ◌>>=◌, read_decimal32, read_blob}
use scouter_server_go.Protocol.Codec.{RoundTrips, RoundTrips-seq, RoundTrips-last}
use scouter_server_go.Protocol.DecimalCodec.{RoundTrips-decimal32}
use scouter_server_go.Protocol.SliceCodec.{IsBlob, RoundTrips-blob}
use scouter_server_go.Protocol.Step.Base.{
  StepSingle, write_step_single, read_step_single, IsStepSingle, RoundTrips-step_single,
}

pub record SocketStep : Type 0 where
  pub single : StepSingle
  pub ip_addr : List ℕ
  pub port : ℕ
  pub elapsed : ℕ
  pub error : ℕ

unfoldable pub write_socket_step : SocketStep → Writer
write_socket_step s =
    write_step_single s.single
    ⨾ write_blob s.ip_addr
    ⨾ write_decimal (i64_of_i32 s.port)
    ⨾ write_decimal (i64_of_i32 s.elapsed)
    ⨾ write_decimal (i64_of_i32 s.error)

unfoldable pub read_socket_step : Reader SocketStep
read_socket_step = do
  single ← read_step_single
  ip_addr ← read_blob
  port ← read_decimal32
  elapsed ← read_decimal32
  error ← read_decimal32
  return
      (record { single = single; ip_addr = ip_addr; port = port; elapsed = elapsed; error = error })

pub record IsSocketStep (s : SocketStep) : Type 0 where
  pub single : IsStepSingle s.single
  pub ip_addr : IsBlob s.ip_addr
  pub port : IsI32 s.port
  pub elapsed : IsI32 s.elapsed
  pub error : IsI32 s.error

pub RoundTrips-socket_step :
    (s : SocketStep) → IsSocketStep s → RoundTrips (write_socket_step s) read_socket_step s
unfolding write_socket_step read_socket_step
RoundTrips-socket_step s v = RoundTrips-seq _ (RoundTrips-step_single s.single v.single) (
    RoundTrips-seq _ (RoundTrips-blob s.ip_addr v.ip_addr) (
      RoundTrips-seq _ (RoundTrips-decimal32 s.port v.port) (
        RoundTrips-seq _ (RoundTrips-decimal32 s.elapsed v.elapsed)
          (RoundTrips-last _ (RoundTrips-decimal32 s.error v.error)))))

pub record SocketSum : Type 0 where
  pub ip_addr : List ℕ
  pub port : ℕ
  pub count : ℕ
  pub elapsed : ℕ
  pub error : ℕ

unfoldable pub write_socket_sum : SocketSum → Writer
write_socket_sum s =
    write_blob s.ip_addr
    ⨾ write_decimal (i64_of_i32 s.port)
    ⨾ write_decimal (i64_of_i32 s.count)
    ⨾ write_decimal (i64_of_i32 s.elapsed)
    ⨾ write_decimal (i64_of_i32 s.error)

unfoldable pub read_socket_sum : Reader SocketSum
read_socket_sum = do
  ip_addr ← read_blob
  port ← read_decimal32
  count ← read_decimal32
  elapsed ← read_decimal32
  error ← read_decimal32
  return
      (record { ip_addr = ip_addr; port = port; count = count; elapsed = elapsed; error = error })

pub record IsSocketSum (s : SocketSum) : Type 0 where
  pub ip_addr : IsBlob s.ip_addr
  pub port : IsI32 s.port
  pub count : IsI32 s.count
  pub elapsed : IsI32 s.elapsed
  pub error : IsI32 s.error

pub RoundTrips-socket_sum :
    (s : SocketSum) → IsSocketSum s → RoundTrips (write_socket_sum s) read_socket_sum s
unfolding write_socket_sum read_socket_sum
RoundTrips-socket_sum s v = RoundTrips-seq _ (RoundTrips-blob s.ip_addr v.ip_addr) (
    RoundTrips-seq _ (RoundTrips-decimal32 s.port v.port) (
      RoundTrips-seq _ (RoundTrips-decimal32 s.count v.count) (
        RoundTrips-seq _ (RoundTrips-decimal32 s.elapsed v.elapsed)
          (RoundTrips-last _ (RoundTrips-decimal32 s.error v.error)))))
