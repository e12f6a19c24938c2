-- ===== src/Util/HashTable.antt =====
-- The table of internal/util/hash.go against the polynomial of CRC-32.
use Prim.Native.Nat.{bit_xor}
use scouter_server_go.Common.{
  ◌+◌, ◌*◌, ◌∙◌, length, ℕ, zero, suc, ◌/◌, ◌%◌, ◌^◌, ◌≡◌, refl, ap, ◌<◌, ◌==◌, ◌&&◌, Bool, true,
  List, [], ◌∷◌, arith, if◌then◌else◌, ==_iff, All, sym,
}
use native.Mathlib.Nat.{pow-suc}
use scouter_server_go.Util.Xor.{
  bit_xor-zero, half-bit_xor, parity-bit_xor, interchange, bit_xor-eq-add, high-bit_xor,
}
use scouter_server_go.Util.Hash.{crc32_table, table_at, hash_step, hash_loop, hash_bytes}

-- One bit of the division by the reflected polynomial 0xedb88320.
unfoldable pub crc_bit : ℕ → ℕ
crc_bit c = if c % 2 == 1 then bit_xor (c / 2) 0xedb88320 else c / 2

unfoldable pub crc_bits : ℕ → ℕ → ℕ
crc_bits zero c = c
crc_bits (suc n) c = crc_bits n (crc_bit c)

-- The division of a message, byte after byte and in each byte bit after bit.
unfoldable pub divide : List ℕ → ℕ → ℕ
divide [] c = c
divide (b ∷ bs) c = divide bs (crc_bits 8 (bit_xor c b))

unfoldable pub crc32 : List ℕ → ℕ
crc32 bytes = bit_xor (divide bytes 0xffffffff) 0xffffffff

abbrev pub IsByte : ℕ → Type 0
IsByte b = b < 2 ^ 8

-- The entries from index `i` on are the remainders of their indices.
are_remainders : ℕ → List ℕ → Bool
are_remainders i [] = true
are_remainders i (x ∷ table) = (x == crc_bits 8 i) && are_remainders (i + 1) table

table_at-remainder :
    (i j : ℕ) (table : List ℕ)
    → are_remainders i table ≡ true
    → j < length table
    → table_at table j ≡ crc_bits 8 (i + j)
unfolding are_remainders table_at
table_at-remainder i j [] h p = absurd (omega arith)
table_at-remainder i zero (x ∷ table) h p =
    (==_iff x (crc_bits 8 i)).0 (ground arith) ∙ ap (crc_bits 8) (omega arith)
table_at-remainder i (suc j) (x ∷ table) h p =
    table_at-remainder (i + 1) j table (ground arith) (omega arith) ∙ ap (crc_bits 8) (omega arith)

crc32_table_remainders : (are_remainders 0 crc32_table ≡ true) × (length crc32_table ≡ 256)
unfolding are_remainders crc32_table crc_bits crc_bit
crc32_table_remainders = (refl, refl)

table_entry : (x : ℕ) → table_at crc32_table (x % 2 ^ 8) ≡ crc_bits 8 (x % 2 ^ 8)
table_entry x =
    table_at-remainder 0 (x % 2 ^ 8) crc32_table crc32_table_remainders.0
      (omega (arith, crc32_table_remainders.1))
    ∙ ap (crc_bits 8) (omega arith)

-- What one bit subtracts.
abbrev subtracted : ℕ → ℕ
subtracted zero = 0
subtracted (suc n) = 0xedb88320

subtracted-bit_xor :
    (x y : ℕ) → x < 2 → y < 2 → subtracted ((x + y) % 2) ≡ bit_xor (subtracted x) (subtracted y)
subtracted-bit_xor zero zero h k = refl
subtracted-bit_xor zero (suc zero) h k = refl
subtracted-bit_xor (suc zero) zero h k = refl
subtracted-bit_xor (suc zero) (suc zero) h k = refl
subtracted-bit_xor (suc (suc x)) y h k = absurd (omega arith)
subtracted-bit_xor zero (suc (suc y)) h k = absurd (omega arith)
subtracted-bit_xor (suc zero) (suc (suc y)) h k = absurd (omega arith)

crc_bit_lem : (c : ℕ) → crc_bit c ≡ bit_xor (c / 2) (subtracted (c % 2))
unfolding crc_bit
crc_bit_lem c = by_digit (c % 2) (omega arith)
  where
    by_digit :
        (x : ℕ)
        → x < 2
        → (if x == 1 then bit_xor (c / 2) 0xedb88320 else c / 2) ≡ bit_xor (c / 2) (subtracted x)
    by_digit zero h = sym (bit_xor-zero (c / 2))
    by_digit (suc zero) h = refl
    by_digit (suc (suc x)) h = absurd (omega arith)

crc_bit-bit_xor : (a b : ℕ) → crc_bit (bit_xor a b) ≡ bit_xor (crc_bit a) (crc_bit b)
crc_bit-bit_xor a b =
    let digits : bit_xor a b % 2 ≡ (a % 2 + b % 2) % 2 = omega (arith, parity-bit_xor a b) in
    crc_bit_lem (bit_xor a b)
    ∙ rw (half-bit_xor a b, digits, subtracted-bit_xor (a % 2) (b % 2) (omega arith) (omega arith))
        (interchange (a / 2) (b / 2) (subtracted (a % 2)) (subtracted (b % 2))
          ∙ sym (rw (crc_bit_lem a, crc_bit_lem b) refl))

crc_bits-bit_xor : (n a b : ℕ) → crc_bits n (bit_xor a b) ≡ bit_xor (crc_bits n a) (crc_bits n b)
unfolding crc_bits
crc_bits-bit_xor zero a b = refl
crc_bits-bit_xor (suc n) a b =
    ap (crc_bits n) (crc_bit-bit_xor a b) ∙ crc_bits-bit_xor n (crc_bit a) (crc_bit b)

-- Zeros are shifted out.
crc_bits-shift : (n y : ℕ) → crc_bits n (y * 2 ^ n) ≡ y
unfolding crc_bits
crc_bits-shift zero y = omega arith
crc_bits-shift (suc n) y =
    let even : y * 2 ^ suc n ≡ y * 2 ^ n * 2 = rw (pow-suc 2 n) (omega arith) in
    let bit : crc_bit (y * 2 ^ suc n) ≡ y * 2 ^ n =
      crc_bit_lem (y * 2 ^ suc n) ∙ rw even (shifted (y * 2 ^ n)) in
    ap (crc_bits n) bit ∙ crc_bits-shift n y
  where
    shifted : (x : ℕ) → bit_xor (x * 2 / 2) (subtracted (x * 2 % 2)) ≡ x
    shifted x =
        let half : x * 2 / 2 ≡ x = omega arith in
        let digit : x * 2 % 2 ≡ 0 = omega arith in rw (half, digit) (bit_xor-zero x)

-- The low byte is divided out and the rest moves down.
crc_bits-byte : (x : ℕ) → crc_bits 8 x ≡ bit_xor (x / 2 ^ 8) (crc_bits 8 (x % 2 ^ 8))
crc_bits-byte x =
    let split : x ≡ bit_xor (x / 2 ^ 8 * 2 ^ 8) (x % 2 ^ 8) =
      sym (bit_xor-eq-add 8 (x / 2 ^ 8) (x % 2 ^ 8) (omega arith) ∙ omega arith) in
    ap (crc_bits 8) split
    ∙ crc_bits-bit_xor 8 (x / 2 ^ 8 * 2 ^ 8) (x % 2 ^ 8)
    ∙ ap (λ y. bit_xor y (crc_bits 8 (x % 2 ^ 8))) (crc_bits-shift 8 (x / 2 ^ 8))

hash_step-eq :
    (crc b : ℕ) → IsByte b → hash_step (table_at crc32_table) crc b ≡ crc_bits 8 (bit_xor crc b)
unfolding hash_step
hash_step-eq crc b h =
    let x = bit_xor crc b in rw (table_entry x, ← high-bit_xor 8 crc b h) (sym (crc_bits-byte x))

hash_loop-divide :
    (crc : ℕ) (bs : List ℕ)
    → All IsByte bs
    → hash_loop (table_at crc32_table) crc bs ≡ divide bs crc
unfolding hash_loop divide
hash_loop-divide crc [] h = refl
hash_loop-divide crc (b ∷ bs) (h, hs) =
    rw (hash_step-eq crc b h) (hash_loop-divide (crc_bits 8 (bit_xor crc b)) bs hs)

-- On every list of numbers below 2^8 HashBytes, with its table and its shift by a byte, is their
-- CRC-32: the remainder of the division by the reflected polynomial 0xedb88320, bit by bit, which
-- starts from 0xffffffff and is complemented in the end.
pub hash_bytes-eq-crc32 : (bytes : List ℕ) → All IsByte bytes → hash_bytes bytes ≡ crc32 bytes
unfolding hash_bytes crc32
hash_bytes-eq-crc32 bytes h = ap (λ c. bit_xor c 0xffffffff) (hash_loop-divide 0xffffffff bytes h)
