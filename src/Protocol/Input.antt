-- ===== src/Protocol/Input.antt =====
-- DataInputX of internal/protocol/datainx.go in buffer mode: a reader is a function on the buffer
-- that fails, panics, or returns its value with the advanced offset.
use scouter_server_go.Common.{
  ℕ, zero, suc, ◌+◌, ◌-◌, ◌*◌, ◌%◌, ◌^◌, ◌==◌, Bool, not, Option, List, [], ◌∷◌, length, take, drop,
  get_elem?, ltb, none, some, if◌then◌else◌,
}
use scouter_server_go.Protocol.Word.{i64_of_i8, i64_of_i16, i64_of_i32, to_i32, sar_i32}
use Prim.Native.Nat.{bit_or}

-- ErrEOF, and the errors that CreateValue, CreateStep and CreatePack return.
pub data Error : Type 0 where
  eof : Error
  unknown_type : ℕ → Error

-- `panic` is a Go run-time panic. `stuck` is no outcome of the program: a recursion of the model
-- ran out of fuel.
pub data Result {ℓ} (A : Type ℓ) : Type ℓ where
  ok : A → Result A
  err : Error → Result A
  panic : Result A
  stuck : Result A

pub record DataInputX : Type 0 where
  pub buf : List ℕ
  pub offset : ℕ

unfoldable pub new_input : List ℕ → DataInputX
new_input buf = record { buf = buf; offset = 0 }

unfoldable pub new_input_offset : List ℕ → ℕ → DataInputX
new_input_offset buf offset = record { buf = buf; offset = offset }

unfoldable pub available : DataInputX → ℕ
available d = length d.buf - d.offset

unfoldable pub advance : DataInputX → ℕ → DataInputX
advance d n = record d { offset = d.offset + n }

abbrev pub Reader {ℓ} : Type ℓ → Type ℓ
Reader A = DataInputX → Result (A × DataInputX)

unfoldable pub return {ℓ} : {A : Type ℓ} → A → Reader A
return a d = ok (a, d)

unfoldable pub fail {ℓ} : {A : Type ℓ} → Error → Reader A
fail e d = err e

unfoldable pub crash {ℓ} : {A : Type ℓ} → Reader A
crash d = panic

unfoldable pub no_fuel {ℓ} : {A : Type ℓ} → Reader A
no_fuel d = stuck

-- What follows a bound result: `if err != nil { return err }`, and the rest.
abbrev pub then_with {ℓ κ} :
    {A : Type ℓ} {B : Type κ} → Result (A × DataInputX) → (A → Reader B) → Result (B × DataInputX)
then_with (ok (a, d)) f = f a d
then_with (err e) f = err e
then_with panic f = panic
then_with stuck f = stuck

infixl 5 ◌>>=◌
unfoldable pub ◌>>=◌ {ℓ κ} : {A : Type ℓ} {B : Type κ} → Reader A → (A → Reader B) → Reader B
◌>>=◌ m f d = then_with (m d) f

-- `n` bytes from the offset on.
unfoldable pub read_bytes : ℕ → Reader (List ℕ)
unfolding advance
read_bytes n d =
    if ltb (length d.buf) (d.offset + n)
    then err eof
    else ok (take n (drop d.offset d.buf), advance d n)

-- `Read(n)` for an int64 `n`: a negative `n` passes the test of the end, and `make` panics.
unfoldable pub read : ℕ → Reader (List ℕ)
read n = if ltb n (2 ^ 63) then read_bytes n else crash

unfoldable pub read_byte : Reader ℕ
unfolding advance
read_byte d = elim (get_elem? d.buf d.offset) [ none ↦ err eof | some v ↦ ok (v, advance d 1) ]

unfoldable pub read_boolean : Reader Bool
read_boolean = do b ← read_byte; return (not (b == 0))

-- binary.BigEndian.Uint16, Uint32 and Uint64 on as many bytes.
abbrev pub uint_from : ℕ → List ℕ → ℕ
uint_from acc [] = acc
uint_from acc (b ∷ bs) = uint_from (acc * 2 ^ 8 + b) bs

abbrev pub big_endian_uint : List ℕ → ℕ
big_endian_uint bs = uint_from 0 bs

unfoldable pub read_int16 : Reader ℕ
read_int16 = do b ← read_bytes 2; return (big_endian_uint b)

unfoldable pub read_uint16 : Reader ℕ
read_uint16 = do b ← read_bytes 2; return (big_endian_uint b)

unfoldable pub read_int32 : Reader ℕ
read_int32 = do b ← read_bytes 4; return (big_endian_uint b)

unfoldable pub read_int64 : Reader ℕ
read_int64 = do b ← read_bytes 8; return (big_endian_uint b)

unfoldable pub read_float32 : Reader ℕ
read_float32 = read_int32

unfoldable pub read_float64 : Reader ℕ
read_float64 = read_int64

-- Both are called on as many bytes as they index.
unfoldable pub int3 : List ℕ → ℕ
int3 (a ∷ b ∷ c ∷ _) = sar_i32 ((a * 2 ^ 24 % 2 ^ 32 + b * 2 ^ 16 + c * 2 ^ 8) % 2 ^ 32) 8
int3 _ = 0

unfoldable pub int5 : List ℕ → ℕ
int5 (a ∷ b ∷ c ∷ d ∷ e ∷ _) =
    bit_or
      (bit_or (bit_or (bit_or (i64_of_i8 a * 2 ^ 32 % 2 ^ 64) (b * 2 ^ 24)) (c * 2 ^ 16))
        (d * 2 ^ 8))
      e
int5 _ = 0

unfoldable pub read_int3 : Reader ℕ
read_int3 = do b ← read 3; return (int3 b)

unfoldable pub read_long5 : Reader ℕ
read_long5 = do b ← read 5; return (int5 b)

-- The body of each case of the switch on the length byte.
unfoldable pub read_decimal_body : ℕ → Reader ℕ
read_decimal_body n =
    if n == 0
    then return 0
    else if n == 1
    then (do b ← read_byte; return (i64_of_i8 b))
    else if n == 2
    then (do v ← read_int16; return (i64_of_i16 v))
    else if n == 3
    then (do v ← read_int3; return (i64_of_i32 v))
    else if n == 4
    then (do v ← read_int32; return (i64_of_i32 v))
    else if n == 5
    then read_long5
    else read_int64

unfoldable pub read_decimal : Reader ℕ
read_decimal = do n ← read_byte; read_decimal_body n

unfoldable pub read_blob_body : ℕ → Reader (List ℕ)
read_blob_body b =
    if b == 0
    then return []
    else if b == 255
    then (do n ← read_uint16; read n)
    else if b == 254
    then (do n ← read_int32; read (i64_of_i32 n))
    else read b

unfoldable pub read_blob : Reader (List ℕ)
read_blob = do b ← read_byte; read_blob_body b

-- The switch of `ReadBlobRef` on the first byte: the length of the slice, as an int64.
unfoldable pub blob_ref_length : ℕ → Reader ℕ
blob_ref_length b =
    if b == 255
    then read_uint16
    else if b == 254
    then (do n ← read_int32; return (i64_of_i32 n))
    else return b

-- The slice `d.buf[d.offset : d.offset+length]`, which panics at a negative length.
unfoldable pub slice_ref : ℕ → Reader (List ℕ)
unfolding advance
slice_ref n d =
    if ltb n (2 ^ 63)
    then (if ltb (length d.buf) (d.offset + n)
        then err eof
        else ok (take n (drop d.offset d.buf), advance d n))
    else panic

unfoldable pub read_blob_ref : Reader (List ℕ)
read_blob_ref = do
  b ← read_byte
  if b == 0 then return [] else (do n ← blob_ref_length b; slice_ref n)

-- Every call passes a constant, so `n` is not negative.
unfoldable pub skip_bytes : ℕ → Reader (Unit {0})
unfolding advance
skip_bytes n d = if ltb (length d.buf) (d.offset + n) then err eof else ok (tt, advance d n)

unfoldable pub read_text : Reader (List ℕ)
read_text = do b ← read_blob; return b

unfoldable pub read_int_bytes : Reader (List ℕ)
read_int_bytes = do n ← read_int32; read (i64_of_i32 n)

unfoldable pub read_short_bytes : Reader (List ℕ)
read_short_bytes = do n ← read_uint16; read n

-- The loop that fills a slice of `n` elements.
unfoldable pub read_times {ℓ} : {A : Type ℓ} → ℕ → Reader A → Reader (List A)
read_times zero r = return []
read_times (suc n) r = do x ← r; xs ← read_times n r; return (x ∷ xs)

-- `make` panics at a negative length; an allocation is taken to succeed.
unfoldable pub read_array {ℓ} : {A : Type ℓ} → Reader A → Reader (List A)
read_array r = do n ← read_int16; if ltb n (2 ^ 15) then read_times n r else crash

unfoldable pub read_array_int : Reader (List ℕ)
read_array_int = read_array read_int32

unfoldable pub read_array_long : Reader (List ℕ)
read_array_long = read_array read_int64

unfoldable pub read_array_float : Reader (List ℕ)
read_array_float = read_array read_float32

unfoldable pub read_counted {ℓ} : {A : Type ℓ} → Reader A → Reader (List A)
read_counted r = do n ← read_decimal; if ltb n (2 ^ 63) then read_times n r else crash

-- `v, err := d.ReadDecimal()` and then `int32(v)`.
unfoldable pub read_decimal32 : Reader ℕ
read_decimal32 = do v ← read_decimal; return (to_i32 v)

unfoldable pub read_decimal_array : Reader (List ℕ)
read_decimal_array = read_counted read_decimal

unfoldable pub read_decimal_int_array : Reader (List ℕ)
read_decimal_int_array = read_counted read_decimal32

-- After CreateValue, CreateStep or CreatePack: the method `Read` of what was created, or the error
-- that the type code is unknown.
unfoldable pub read_created {ℓ} : {A : Type ℓ} → ℕ → Option (Reader A) → Reader A
read_created t none = fail (unknown_type t)
read_created t (some r) = r
