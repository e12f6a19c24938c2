-- ===== src/Util/Xor.antt =====
-- The exclusive or of two numbers, digit by digit, and its algebra.
use Prim.Native.Nat.{bit_xor, digits, differ, bit_xor-bitwise}
use native.Mathlib.Nat.{pow-suc, div-div-eq-div-mul}
use scouter_server_go.Common.{
  ℕ, zero, suc, ◌+◌, ◌*◌, ◌/◌, ◌%◌, ◌^◌, ◌≤◌, ◌<◌, ◌≡◌, refl, sym, ap, ◌∙◌, arith,
}

abbrev xor_digits : ℕ → ℕ → ℕ → ℕ
xor_digits n a b = digits (λ b. b) differ n a b

xor_digits_fuel : (n m a b : ℕ) → a ≤ n → a ≤ m → xor_digits n a b ≡ xor_digits m a b
xor_digits_fuel zero zero a b p q = refl
xor_digits_fuel zero (suc m) zero b p q = refl
xor_digits_fuel zero (suc m) (suc a) b p q = absurd (omega arith)
xor_digits_fuel (suc n) zero zero b p q = refl
xor_digits_fuel (suc n) zero (suc a) b p q = absurd (omega arith)
xor_digits_fuel (suc n) (suc m) zero b p q = refl
xor_digits_fuel (suc n) (suc m) (suc a) b p q =
    omega (arith, xor_digits_fuel n m (suc a / 2) (b / 2) (omega arith) (omega arith))

pub zero-bit_xor : (b : ℕ) → bit_xor 0 b ≡ b
zero-bit_xor b = bit_xor-bitwise 0 b

differ_digits : (a b : ℕ) → a < 2 → b < 2 → differ a b ≡ (a + b) % 2
differ_digits zero zero h k = refl
differ_digits zero (suc zero) h k = refl
differ_digits (suc zero) zero h k = refl
differ_digits (suc zero) (suc zero) h k = refl
differ_digits (suc (suc a)) b h k = absurd (omega arith)
differ_digits zero (suc (suc b)) h k = absurd (omega arith)
differ_digits (suc zero) (suc (suc b)) h k = absurd (omega arith)

pub bit_xor_step : (a b : ℕ) → bit_xor a b ≡ bit_xor (a / 2) (b / 2) * 2 + (a + b) % 2
bit_xor_step zero b = omega (arith, zero-bit_xor b, zero-bit_xor (b / 2))
bit_xor_step (suc a) b = omega (
  arith,
  bit_xor-bitwise (suc a) b,
  bit_xor-bitwise (suc a / 2) (b / 2),
  xor_digits_fuel a (suc a / 2) (suc a / 2) (b / 2) (omega arith) (omega arith),
  differ_digits (suc a % 2) (b % 2) (omega arith) (omega arith),
)

pub half-bit_xor : (a b : ℕ) → bit_xor a b / 2 ≡ bit_xor (a / 2) (b / 2)
half-bit_xor a b = omega (arith, bit_xor_step a b)

pub parity-bit_xor : (a b : ℕ) → bit_xor a b % 2 ≡ (a + b) % 2
parity-bit_xor a b = omega (arith, bit_xor_step a b)

comm_fuel : (n a b : ℕ) → a ≤ n → b ≤ n → bit_xor a b ≡ bit_xor b a
comm_fuel zero zero zero p q = refl
comm_fuel zero (suc a) b p q = absurd (omega arith)
comm_fuel zero zero (suc b) p q = absurd (omega arith)
comm_fuel (suc n) a b p q = omega (
  arith,
  bit_xor_step a b,
  bit_xor_step b a,
  comm_fuel n (a / 2) (b / 2) (omega arith) (omega arith),
)

pub bit_xor_comm : (a b : ℕ) → bit_xor a b ≡ bit_xor b a
bit_xor_comm a b = comm_fuel (a + b) a b (omega arith) (omega arith)

assoc_fuel :
    (n a b c : ℕ) → a ≤ n → b ≤ n → c ≤ n → bit_xor (bit_xor a b) c ≡ bit_xor a (bit_xor b c)
assoc_fuel zero zero zero zero p q r = refl
assoc_fuel zero (suc a) b c p q r = absurd (omega arith)
assoc_fuel zero zero (suc b) c p q r = absurd (omega arith)
assoc_fuel zero zero zero (suc c) p q r = absurd (omega arith)
assoc_fuel (suc n) a b c p q r =
    bit_xor_step (bit_xor a b) c
    ∙ rw
        (
          half-bit_xor a b,
          assoc_fuel n (a / 2) (b / 2) (c / 2) (omega arith) (omega arith) (omega arith),
        )
        (rw (← half-bit_xor b c)
          (omega (arith, parity-bit_xor a b, parity-bit_xor b c, bit_xor_step a (bit_xor b c))))

pub bit_xor_assoc : (a b c : ℕ) → bit_xor (bit_xor a b) c ≡ bit_xor a (bit_xor b c)
bit_xor_assoc a b c = assoc_fuel (a + b + c) a b c (omega arith) (omega arith) (omega arith)

pub bit_xor-zero : (a : ℕ) → bit_xor a 0 ≡ a
bit_xor-zero a = bit_xor_comm a 0 ∙ zero-bit_xor a

-- The high digits of one number and the low digits of the other.
pub bit_xor-eq-add : (k a b : ℕ) → b < 2 ^ k → bit_xor (a * 2 ^ k) b ≡ a * 2 ^ k + b
bit_xor-eq-add zero a zero h = omega (arith, bit_xor-zero (a * 1))
bit_xor-eq-add zero a (suc b) h = absurd (omega arith)
bit_xor-eq-add (suc k) a b h =
    let p : ℕ = 2 ^ k in
    let power : 2 ^ suc k ≡ p * 2 = pow-suc 2 k in
    let double : a * 2 ^ suc k ≡ a * p * 2 = rw power (omega arith) in
    let half : a * p * 2 / 2 ≡ a * p = omega arith in
    let rec : bit_xor (a * p) (b / 2) ≡ a * p + b / 2 =
      bit_xor-eq-add k a (b / 2) (omega (arith, power)) in
    rw double (bit_xor_step (a * p * 2) b ∙ rw half (rw rec (omega arith)))

-- Digits below the k-th do not change those from the k-th on.
pub high-bit_xor : (k a b : ℕ) → b < 2 ^ k → bit_xor a b / 2 ^ k ≡ a / 2 ^ k
high-bit_xor zero a zero h = rw (bit_xor-zero a) refl
high-bit_xor zero a (suc b) h = absurd (omega arith)
high-bit_xor (suc k) a b h =
    halved (bit_xor a b)
    ∙ rw (half-bit_xor a b, high-bit_xor k (a / 2) (b / 2) (omega (arith, pow-suc 2 k)))
        (sym (halved a))
  where
    halved : (x : ℕ) → x / 2 ^ suc k ≡ x / 2 / 2 ^ k
    halved x = sym (div-div-eq-div-mul x 2 (2 ^ k) ∙ ap (λ m. x / m) (omega (arith, pow-suc 2 k)))

-- Two of four exchange their places.
pub interchange :
    (a b c d : ℕ) → bit_xor (bit_xor a b) (bit_xor c d) ≡ bit_xor (bit_xor a c) (bit_xor b d)
interchange a b c d =
    bit_xor_assoc a b (bit_xor c d)
    ∙ ap (bit_xor a)
        (sym (bit_xor_assoc b c d) ∙ ap (λ x. bit_xor x d) (bit_xor_comm b c) ∙ bit_xor_assoc c b d)
    ∙ sym (bit_xor_assoc a c (bit_xor b d))
