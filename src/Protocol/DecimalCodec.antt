-- ===== src/Protocol/DecimalCodec.antt =====
-- WriteDecimal and ReadDecimal: every int64 is read back, whichever of the seven lengths it takes.
use scouter_server_go.Common.{ℕ, ◌≡◌, refl, ◌==◌, arith}
use mathlib.Core.Path.{subst}
use scouter_server_go.Protocol.Word.{
  IsI32, IsI64, neg_i64, within_i64, i64_of_i8, i64_of_i16, i64_of_i32, to_byte, to_i16, to_i32,
}
use scouter_server_go.Protocol.Output.{
  Writer, ◌⨾◌, write_none, write_byte, int3_min, int3_max, long5_min, long5_max, write_decimal,
}
use scouter_server_go.Protocol.Input.{read_decimal_body, read_decimal, read_decimal32}
use scouter_server_go.Protocol.Codec.{
  RoundTrips, RoundTrips-return, RoundTrips-seq, RoundTrips-last, RoundTrips-if,
}
use scouter_server_go.Protocol.WordCodec.{
  RoundTrips-byte, RoundTrips-int16, RoundTrips-int3, RoundTrips-int32, RoundTrips-long5,
  RoundTrips-int64,
}

tagged :
    (n : ℕ) {w : Writer} {x v : ℕ}
    → RoundTrips w (read_decimal_body n) x
    → x ≡ v
    → RoundTrips (write_byte n ⨾ w) read_decimal v
unfolding read_decimal
tagged n {w} p e =
    subst (RoundTrips (write_byte n ⨾ w) read_decimal) e
      (RoundTrips-seq read_decimal_body (RoundTrips-byte n) p)

zero_tag : (v : ℕ) → 0 ≡ v → RoundTrips (write_byte 0) read_decimal v
unfolding ◌⨾◌ write_none read_decimal_body
zero_tag v e = tagged 0 (RoundTrips-return 0) e

pub RoundTrips-decimal : (v : ℕ) → IsI64 v → RoundTrips (write_decimal v) read_decimal v
unfolding write_decimal read_decimal_body
RoundTrips-decimal v h =
    RoundTrips-if (v == 0) (λ e. zero_tag v (ground arith))
      λ _.
        RoundTrips-if (within_i64 (neg_i64 128) v 127)
          (λ e. tagged 1 (RoundTrips-last i64_of_i8 (RoundTrips-byte (to_byte v))) (ground arith))
          λ _.
            RoundTrips-if (within_i64 (neg_i64 32768) v 32767)
              (λ e.
                tagged 2 (RoundTrips-last i64_of_i16 (RoundTrips-int16 (to_i16 v) (omega arith)))
                  (ground arith))
              λ _.
                RoundTrips-if (within_i64 int3_min v int3_max)
                  (λ e.
                    tagged 3
                      (RoundTrips-last i64_of_i32
                        (RoundTrips-int3 (to_i32 v) (omega arith, ground arith)))
                      (ground arith))
                  λ _.
                    RoundTrips-if (within_i64 (neg_i64 2147483648) v 2147483647)
                      (λ e.
                        tagged 4
                          (RoundTrips-last i64_of_i32 (RoundTrips-int32 (to_i32 v) (omega arith)))
                          (ground arith))
                      λ _.
                        RoundTrips-if (within_i64 long5_min v long5_max)
                          (λ e. tagged 5 (RoundTrips-long5 v (h, ground arith)) refl)
                          λ _. tagged 8 (RoundTrips-int64 v h) refl

-- An int32 that is written as a decimal and narrowed when it is read.
pub RoundTrips-decimal32 :
    (v : ℕ) → IsI32 v → RoundTrips (write_decimal (i64_of_i32 v)) read_decimal32 v
unfolding read_decimal32
RoundTrips-decimal32 v h =
    subst (RoundTrips _ _) (ground arith)
      (RoundTrips-last to_i32 (RoundTrips-decimal (i64_of_i32 v) (ground arith)))
