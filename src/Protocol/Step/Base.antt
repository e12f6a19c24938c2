-- ===== src/Protocol/Step/Base.antt =====
-- StepSingle of internal/protocol/step/step.go, and the address that depends on an option byte.
use scouter_server_go.Common.{
  ℕ, ◌≡◌, ◌≢◌, List, [], arith, ◌==◌, if◌then◌else◌, Bool-cases, inl, inr,
}
use scouter_server_go.Protocol.Word.{IsI32, i64_of_i32}
use scouter_server_go.Protocol.Output.{Writer, ◌⨾◌, write_none, write_decimal, write_text}
use scouter_server_go.Protocol.Input.{Reader, return, ◌>>=◌, read_decimal32, read_text}
use scouter_server_go.Protocol.Codec.{
  RoundTrips, RoundTrips-return, RoundTrips-seq, RoundTrips-last,
}
use scouter_server_go.Protocol.DecimalCodec.{RoundTrips-decimal32}
use scouter_server_go.Protocol.SliceCodec.{IsBlob, RoundTrips-text}

pub record StepSingle : Type 0 where
  pub parent : ℕ
  pub index : ℕ
  pub start_time : ℕ
  pub start_cpu : ℕ

unfoldable pub write_step_single : StepSingle → Writer
write_step_single s =
    write_decimal (i64_of_i32 s.parent)
    ⨾ write_decimal (i64_of_i32 s.index)
    ⨾ write_decimal (i64_of_i32 s.start_time)
    ⨾ write_decimal (i64_of_i32 s.start_cpu)

unfoldable pub read_step_single : Reader StepSingle
read_step_single = do
  parent ← read_decimal32
  index ← read_decimal32
  start_time ← read_decimal32
  start_cpu ← read_decimal32
  return (record { parent = parent; index = index; start_time = start_time; start_cpu = start_cpu })

pub record IsStepSingle (s : StepSingle) : Type 0 where
  pub parent : IsI32 s.parent
  pub index : IsI32 s.index
  pub start_time : IsI32 s.start_time
  pub start_cpu : IsI32 s.start_cpu

pub RoundTrips-step_single :
    (s : StepSingle) → IsStepSingle s → RoundTrips (write_step_single s) read_step_single s
unfolding write_step_single read_step_single
RoundTrips-step_single s v = RoundTrips-seq _ (RoundTrips-decimal32 s.parent v.parent) (
    RoundTrips-seq _ (RoundTrips-decimal32 s.index v.index) (
      RoundTrips-seq _ (RoundTrips-decimal32 s.start_time v.start_time)
        (RoundTrips-last _ (RoundTrips-decimal32 s.start_cpu v.start_cpu))))

-- `if s.Opt == 1 { o.WriteText(s.Address) }`
unfoldable pub write_opt_text : ℕ → List ℕ → Writer
write_opt_text opt address = if opt == 1 then write_text address else write_none

unfoldable pub read_opt_text : ℕ → Reader (List ℕ)
read_opt_text opt = if opt == 1 then read_text else return []

-- With another option the address is not written, so it has to be the one of a new step.
pub record IsOptText (opt : ℕ) (address : List ℕ) : Type 0 where
  pub short : IsBlob address
  pub unused : opt ≢ 1 → address ≡ []

pub RoundTrips-opt_text :
    (opt : ℕ) (address : List ℕ)
    → IsOptText opt address
    → RoundTrips (write_opt_text opt address) (read_opt_text opt) address
unfolding write_opt_text read_opt_text
RoundTrips-opt_text opt address v = elim (Bool-cases (opt == 1)) [
  | inl e ↦ rw e (RoundTrips-text address v.short)
  | inr e ↦ rw (e, v.unused (ground arith)) (RoundTrips-return [])
]
