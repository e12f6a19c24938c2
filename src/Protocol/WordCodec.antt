-- ===== src/Protocol/WordCodec.antt =====
-- Each fixed-width write is read back: bytes, booleans, words of 2, 3, 4, 5 and 8 bytes.
use mathlib.Core.Path.{subst}
use Prim.Native.Nat.{bit_or}
use scouter_server_go.Common.{
  ℕ, zero, suc, ◌+◌, ◌*◌, ◌/◌, ◌%◌, ◌^◌, ◌≤◌, ◌<◌, ◌≡◌, refl, ap, ◌∙◌, Bool, true, false, List, [],
  ◌⊎◌, ◌-◌, ◌∷◌, ◌++◌, length, drop, get_elem?, some, arith, length-append, length-drop,
  take-append_length,
}
use scouter_server_go.Protocol.Bits.{bit_or-eq-add}
use scouter_server_go.Protocol.Word.{IsByte, IsI16, IsI32, IsI64}
use scouter_server_go.Protocol.Output.{
  write, write_byte, write_boolean, write_int16, write_uint16, write_int32, write_int64,
  write_float32, write_float64, write_int3, write_long5, bytes5,
}
use scouter_server_go.Protocol.Input.{
  DataInputX, return, ◌>>=◌, read_bytes, read, read_byte, read_boolean, read_int16, read_uint16,
  read_int32, read_int64, read_float32, read_float64, int3, int5, read_int3, read_long5,
  big_endian_uint,
}
use scouter_server_go.Protocol.Codec.{RoundTrips, RoundTrips-last}

-- What the bytes at the offset say of the bounds.
pub length-of_drop :
    (d : DataInputX) (b rest : List ℕ)
    → drop d.offset d.buf ≡ b ++ rest
    → 0 < length b
    → d.offset + length b ≤ length d.buf
length-of_drop d b rest h p =
    omega (arith, ap length h, length-drop d.offset d.buf, length-append b rest)

pub RoundTrips-bytes : (b : List ℕ) → 0 < length b → RoundTrips (write b) (read_bytes (length b)) b
unfolding read_bytes
RoundTrips-bytes b p = record {
  bytes = b;
  writes = λ o. refl;
  reads = λ d rest h. ground (arith, length-of_drop d b rest h p, h, take-append_length b rest);
}

get_elem?-drop :
    (n : ℕ) (xs : List ℕ) (v : ℕ) (rest : List ℕ) → drop n xs ≡ v ∷ rest → get_elem? xs n ≡ some v
get_elem?-drop zero [] v rest h = cc
get_elem?-drop zero (x ∷ xs) v rest h = cc
get_elem?-drop (suc n) [] v rest h = cc
get_elem?-drop (suc n) (x ∷ xs) v rest h = get_elem?-drop n xs v rest h

pub RoundTrips-byte : (v : ℕ) → RoundTrips (write_byte v) read_byte v
unfolding write_byte write read_byte
RoundTrips-byte v = record {
  bytes = v ∷ [];
  writes = λ o. refl;
  reads = λ d rest h. rw (get_elem?-drop d.offset d.buf v rest h, read_byte);
}

pub RoundTrips-boolean : (v : Bool) → RoundTrips (write_boolean v) read_boolean v
unfolding write_boolean read_boolean
RoundTrips-boolean true = RoundTrips-last _ (RoundTrips-byte 1)
RoundTrips-boolean false = RoundTrips-last _ (RoundTrips-byte 0)

-- A word of `k` bytes, read as `g` makes of them.
RoundTrips-word :
    (b : List ℕ) (g : List ℕ → ℕ) {v : ℕ}
    → 0 < length b
    → g b ≡ v
    → RoundTrips (write b) (read_bytes (length b) >>= λ x. return (g x)) v
RoundTrips-word b g p e = subst (RoundTrips _ _) e (RoundTrips-last g (RoundTrips-bytes b p))

pub RoundTrips-int16 : (v : ℕ) → IsI16 v → RoundTrips (write_int16 v) read_int16 v
unfolding write_int16 write read_int16
RoundTrips-int16 v h = RoundTrips-word _ big_endian_uint (omega arith) (omega arith)

pub RoundTrips-uint16 : (v : ℕ) → IsI16 v → RoundTrips (write_uint16 v) read_uint16 v
unfolding write_uint16 write read_uint16
RoundTrips-uint16 v h = RoundTrips-word _ big_endian_uint (omega arith) (omega arith)

pub RoundTrips-int32 : (v : ℕ) → IsI32 v → RoundTrips (write_int32 v) read_int32 v
unfolding write_int32 write read_int32
RoundTrips-int32 v h = RoundTrips-word _ big_endian_uint (omega arith) (omega arith)

pub RoundTrips-int64 : (v : ℕ) → IsI64 v → RoundTrips (write_int64 v) read_int64 v
unfolding write_int64 write read_int64
RoundTrips-int64 v h = RoundTrips-word _ big_endian_uint (omega arith) (omega arith)

pub RoundTrips-float32 : (v : ℕ) → IsI32 v → RoundTrips (write_float32 v) read_float32 v
unfolding write_float32 read_float32
RoundTrips-float32 = RoundTrips-int32

pub RoundTrips-float64 : (v : ℕ) → IsI64 v → RoundTrips (write_float64 v) read_float64 v
unfolding write_float64 read_float64
RoundTrips-float64 = RoundTrips-int64

-- An int32 that fits three bytes with its sign.
abbrev pub IsInt3 : ℕ → Type 0
IsInt3 v = IsI32 v × ((v < 2 ^ 23) ⊎ (2 ^ 32 - 2 ^ 23 ≤ v))

pub RoundTrips-int3 : (v : ℕ) → IsInt3 v → RoundTrips (write_int3 v) read_int3 v
unfolding write_int3 write read_int3 read int3
RoundTrips-int3 v h = RoundTrips-word _ int3 (omega arith) (ground arith)

-- An int64 that fits five bytes with its sign.
abbrev pub IsLong5 : ℕ → Type 0
IsLong5 v = IsI64 v × ((v < 2 ^ 39) ⊎ (2 ^ 64 - 2 ^ 39 ≤ v))

or-eq-add : (k q x b : ℕ) → x ≡ q * 2 ^ k → b < 2 ^ k → bit_or x b ≡ x + b
or-eq-add k q x b e h = rw e (bit_or-eq-add k q b h)

-- The parts that `Int5` joins by `|` do not overlap.
join_five :
    (s b c d e : ℕ)
    → IsByte b
    → IsByte c
    → IsByte d
    → IsByte e
    → bit_or
        (bit_or (bit_or (bit_or (s * 2 ^ 32 % 2 ^ 64) (b * 2 ^ 24)) (c * 2 ^ 16)) (d * 2 ^ 8))
        e
      ≡ s * 2 ^ 32 % 2 ^ 64 + b * 2 ^ 24 + c * 2 ^ 16 + d * 2 ^ 8 + e
join_five s b c d e hb hc hd he =
    let x = s * 2 ^ 32 % 2 ^ 64 in
    let y = x + b * 2 ^ 24 in
    let z = y + c * 2 ^ 16 in
    let w = z + d * 2 ^ 8 in
    rw (or-eq-add 32 (x / 2 ^ 32) x (b * 2 ^ 24) (omega arith) (omega arith)) (
      rw (or-eq-add 24 (y / 2 ^ 24) y (c * 2 ^ 16) (omega arith) (omega arith)) (
        rw (or-eq-add 16 (z / 2 ^ 16) z (d * 2 ^ 8) (omega arith) (omega arith))
          (or-eq-add 8 (w / 2 ^ 8) w e (omega arith) (omega arith))))

pub int5-bytes5 : (v : ℕ) → IsLong5 v → int5 (bytes5 v) ≡ v
unfolding bytes5 int5
int5-bytes5 v h =
    join_five _ _ _ _ _ (omega arith) (omega arith) (omega arith) (omega arith) ∙ ground arith

pub RoundTrips-long5 : (v : ℕ) → IsLong5 v → RoundTrips (write_long5 v) read_long5 v
unfolding write_long5 write read_long5 read bytes5
RoundTrips-long5 v h = RoundTrips-word _ int5 (omega arith) (int5-bytes5 v h)
