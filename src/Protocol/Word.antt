-- ===== src/Protocol/Word.antt =====
-- Go's machine integers as bit patterns below 2 ^ w, with the conversions, comparisons and shifts
-- that internal/protocol makes of them.
use scouter_server_go.Common.{ℕ, ◌+◌, ◌-◌, ◌/◌, ◌%◌, ◌^◌, ◌<◌, Bool, ◌&&◌, leb, ltb, if◌then◌else◌}

abbrev pub IsByte : ℕ → Type 0
IsByte b = b < 2 ^ 8

abbrev pub IsI16 : ℕ → Type 0
IsI16 v = v < 2 ^ 16

abbrev pub IsI32 : ℕ → Type 0
IsI32 v = v < 2 ^ 32

abbrev pub IsI64 : ℕ → Type 0
IsI64 v = v < 2 ^ 64

-- The pattern of -n as an int64, for 0 < n.
abbrev pub neg_i64 : ℕ → ℕ
neg_i64 n = 2 ^ 64 - n

-- `a <= b` of two int64s: the order of the patterns once the sign bit is flipped.
abbrev pub leb_i64 : ℕ → ℕ → Bool
leb_i64 a b = leb ((a + 2 ^ 63) % 2 ^ 64) ((b + 2 ^ 63) % 2 ^ 64)

-- `a < b` of two int64s.
abbrev pub less_i64 : ℕ → ℕ → Bool
less_i64 a b = ltb ((a + 2 ^ 63) % 2 ^ 64) ((b + 2 ^ 63) % 2 ^ 64)

-- `lo <= v && v <= hi`
abbrev pub within_i64 : ℕ → ℕ → ℕ → Bool
within_i64 lo v hi = leb_i64 lo v && leb_i64 v hi

-- `int64(int8(b))`, `int64(v)` of an int16 and of an int32: sign extension.
abbrev pub i64_of_i8 : ℕ → ℕ
i64_of_i8 b = if ltb b (2 ^ 7) then b else b + (2 ^ 64 - 2 ^ 8)

abbrev pub i64_of_i16 : ℕ → ℕ
i64_of_i16 v = if ltb v (2 ^ 15) then v else v + (2 ^ 64 - 2 ^ 16)

abbrev pub i64_of_i32 : ℕ → ℕ
i64_of_i32 v = if ltb v (2 ^ 31) then v else v + (2 ^ 64 - 2 ^ 32)

-- `byte(v)`, `int16(v)`, `int32(v)`: the low bits.
abbrev pub to_byte : ℕ → ℕ
to_byte v = v % 2 ^ 8

abbrev pub to_i16 : ℕ → ℕ
to_i16 v = v % 2 ^ 16

abbrev pub to_i32 : ℕ → ℕ
to_i32 v = v % 2 ^ 32

-- `v >> k` of a signed integer keeps the sign.
abbrev pub sar_i32 : ℕ → ℕ → ℕ
sar_i32 v k = if ltb v (2 ^ 31) then v / 2 ^ k else v / 2 ^ k + (2 ^ 32 - 2 ^ (32 - k))

abbrev pub sar_i64 : ℕ → ℕ → ℕ
sar_i64 v k = if ltb v (2 ^ 63) then v / 2 ^ k else v / 2 ^ k + (2 ^ 64 - 2 ^ (64 - k))

-- `v > 0` of an int64.
abbrev pub positive_i64 : ℕ → Bool
positive_i64 v = ltb 0 v && ltb v (2 ^ 63)
