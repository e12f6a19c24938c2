-- ===== src/Protocol/Output.antt =====
-- DataOutputX of internal/protocol/dataoutx.go in buffer mode: a writer is a function on the buffer.
use scouter_server_go.Common.{
  ℕ, ◌+◌, ◌/◌, ◌%◌, ◌^◌, ◌==◌, Bool, List, [], ◌∷◌, ◌++◌, length, leb, if◌then◌else◌,
}
use scouter_server_go.Protocol.Word.{
  neg_i64, within_i64, i64_of_i32, to_byte, to_i16, to_i32, sar_i32, sar_i64,
}

-- PutInt5 and Bytes5 of an int64, PutInt32 and Bytes4 of an int32, PutInt64 and Bytes8.
unfoldable pub bytes5 : ℕ → List ℕ
bytes5 v =
    to_byte (sar_i64 v 32)
    ∷ to_byte (sar_i64 v 24)
    ∷ to_byte (sar_i64 v 16)
    ∷ to_byte (sar_i64 v 8)
    ∷ to_byte v
    ∷ []

unfoldable pub bytes4 : ℕ → List ℕ
bytes4 v = to_byte (v / 2 ^ 24) ∷ to_byte (v / 2 ^ 16) ∷ to_byte (v / 2 ^ 8) ∷ to_byte v ∷ []

unfoldable pub bytes8 : ℕ → List ℕ
bytes8 v =
    to_byte (v / 2 ^ 56)
    ∷ to_byte (v / 2 ^ 48)
    ∷ to_byte (v / 2 ^ 40)
    ∷ to_byte (v / 2 ^ 32)
    ∷ bytes4 (to_i32 v)

pub record DataOutputX : Type 0 where
  pub buf : List ℕ
  pub written : ℕ

unfoldable pub new_output : DataOutputX
new_output = record { buf = []; written = 0 }

-- `ToByteArray` is the field `buf`, `Size` the field `written`.
unfoldable pub reset : DataOutputX → DataOutputX
reset o = record o { buf = []; written = 0 }

abbrev pub Writer : Type 0
Writer = DataOutputX → DataOutputX

-- `o := NewDataOutputX()`, the writes, and `o.ToByteArray()`.
unfoldable pub output_bytes : Writer → List ℕ
output_bytes w = (w new_output).buf

-- One write after another on the same buffer.
infixr 20 ◌⨾◌
unfoldable pub ◌⨾◌ : Writer → Writer → Writer
(f ⨾ g) o = g (f o)

unfoldable pub write_none : Writer
write_none o = o

unfoldable pub write : List ℕ → Writer
write b o = record o { buf = o.buf ++ b; written = o.written + length b }

unfoldable pub write_byte : ℕ → Writer
write_byte v o = record o { buf = o.buf ++ (v ∷ []); written = o.written + 1 }

unfoldable pub write_boolean : Bool → Writer
write_boolean v = if v then write_byte 1 else write_byte 0

unfoldable pub write_int16 : ℕ → Writer
write_int16 u o = record o {
  buf = o.buf ++ (to_byte (u / 2 ^ 8) ∷ to_byte u ∷ []);
  written = o.written + 2;
}

unfoldable pub write_uint16 : ℕ → Writer
write_uint16 v o = record o {
  buf = o.buf ++ (to_byte (v / 2 ^ 8) ∷ to_byte v ∷ []);
  written = o.written + 2;
}

unfoldable pub write_int32 : ℕ → Writer
write_int32 u o = record o {
  buf =
      o.buf ++ (to_byte (u / 2 ^ 24) ∷ to_byte (u / 2 ^ 16) ∷ to_byte (u / 2 ^ 8) ∷ to_byte u ∷ []);
  written = o.written + 4;
}

unfoldable pub write_int64 : ℕ → Writer
write_int64 u o = record o {
  buf =
      o.buf
      ++ (to_byte (u / 2 ^ 56)
          ∷ to_byte (u / 2 ^ 48)
          ∷ to_byte (u / 2 ^ 40)
          ∷ to_byte (u / 2 ^ 32)
          ∷ to_byte (u / 2 ^ 24)
          ∷ to_byte (u / 2 ^ 16)
          ∷ to_byte (u / 2 ^ 8)
          ∷ to_byte u
          ∷ []);
  written = o.written + 8;
}

-- A float32 or float64 stands for its bit pattern, which math.Float32bits and Float64bits return.
unfoldable pub write_float32 : ℕ → Writer
write_float32 bits = write_int32 bits

unfoldable pub write_float64 : ℕ → Writer
write_float64 bits = write_int64 bits

unfoldable pub write_int3 : ℕ → Writer
write_int3 v o = record o {
  buf = o.buf ++ (to_byte (sar_i32 v 16) ∷ to_byte (sar_i32 v 8) ∷ to_byte v ∷ []);
  written = o.written + 3;
}

unfoldable pub write_long5 : ℕ → Writer
write_long5 v o = record o {
  buf =
      o.buf
      ++ (to_byte (sar_i64 v 32)
          ∷ to_byte (sar_i64 v 24)
          ∷ to_byte (sar_i64 v 16)
          ∷ to_byte (sar_i64 v 8)
          ∷ to_byte v
          ∷ []);
  written = o.written + 5;
}

-- INT3MinValue, INT3MaxValue, LONG5MinValue, LONG5MaxValue as int64s.
abbrev pub int3_min : ℕ
int3_min = neg_i64 8388608

abbrev pub int3_max : ℕ
int3_max = 8388607

abbrev pub long5_min : ℕ
long5_min = neg_i64 549755813888

abbrev pub long5_max : ℕ
long5_max = 549755813887

unfoldable pub write_decimal : ℕ → Writer
write_decimal v =
    if v == 0
    then write_byte 0
    else if within_i64 (neg_i64 128) v 127
    then write_byte 1 ⨾ write_byte (to_byte v)
    else if within_i64 (neg_i64 32768) v 32767
    then write_byte 2 ⨾ write_int16 (to_i16 v)
    else if within_i64 int3_min v int3_max
    then write_byte 3 ⨾ write_int3 (to_i32 v)
    else if within_i64 (neg_i64 2147483648) v 2147483647
    then write_byte 4 ⨾ write_int32 (to_i32 v)
    else if within_i64 long5_min v long5_max
    then write_byte 5 ⨾ write_long5 v
    else write_byte 8 ⨾ write_int64 v

unfoldable pub write_blob : List ℕ → Writer
write_blob value =
    let n = length value in
    if n == 0
    then write_byte 0
    else if leb n 253
    then write_byte (to_byte n) ⨾ write value
    else if leb n 65535
    then write_byte 255 ⨾ write_uint16 (to_i16 n) ⨾ write value
    else write_byte 254 ⨾ write_int32 (to_i32 n) ⨾ write value

-- A string is the list of its bytes.
unfoldable pub write_text : List ℕ → Writer
write_text s = if length s == 0 then write_byte 0 else write_blob s

unfoldable pub write_int_bytes : List ℕ → Writer
write_int_bytes b = write_int32 (to_i32 (length b)) ⨾ write b

unfoldable pub write_short_bytes : List ℕ → Writer
write_short_bytes b = write_int16 (to_i16 (length b)) ⨾ write b

-- `for _, val := range v { w(val) }`
unfoldable pub write_each {ℓ} : {A : Type ℓ} → (A → Writer) → List A → Writer
write_each w [] = write_none
write_each w (x ∷ xs) = w x ⨾ write_each w xs

-- A nil slice is the empty list: each of these writes the same for both.
unfoldable pub write_array_int : List ℕ → Writer
write_array_int v = write_int16 (to_i16 (length v)) ⨾ write_each write_int32 v

unfoldable pub write_array_long : List ℕ → Writer
write_array_long v = write_int16 (to_i16 (length v)) ⨾ write_each write_int64 v

unfoldable pub write_array_float : List ℕ → Writer
write_array_float v = write_int16 (to_i16 (length v)) ⨾ write_each write_float32 v

unfoldable pub write_decimal_array : List ℕ → Writer
write_decimal_array v = write_decimal (length v % 2 ^ 64) ⨾ write_each write_decimal v

unfoldable pub write_decimal_int_array : List ℕ → Writer
write_decimal_int_array v =
    write_decimal (length v % 2 ^ 64) ⨾ write_each (λ x. write_decimal (i64_of_i32 x)) v
