-- ===== src/Protocol/Bounds.antt =====
-- Readers stay within the buffer: whatever the bytes are, a read that succeeds leaves the buffer as
-- it was, does not move the offset back, and does not move it past the end.
pub mod Words
pub mod Values
pub mod Steps
pub mod Packs
use scouter_server_go.Common.{
  ℕ, zero, suc, ◌+◌, ◌-◌, ◌%◌, ◌^◌, ◌≤◌, ◌<◌, ◌≡◌, refl, ap, ◌∙◌, Bool, true, false, List, [], ◌∷◌,
  length, drop, take, get_elem?, get_elem?-lt, Option, none, some, ltb, ◌==◌, if◌then◌else◌, arith,
}
use mathlib.Core.Path.{subst}
use scouter_server_go.Protocol.Input.{
  DataInputX, Result, ok, err, panic, stuck, Error, advance, Reader, return, fail, crash, no_fuel,
  ◌>>=◌, then_with, read_bytes, read, read_byte, read_boolean, read_int16, read_uint16, read_int32,
  read_int64, read_float32, read_float64, read_int3, read_long5, read_decimal_body, read_decimal,
  read_decimal32, read_blob_body, read_blob, read_text, read_times, read_array, read_counted,
  read_array_int, read_array_long, read_array_float, read_decimal_array, read_decimal_int_array,
  read_created, read_short_bytes, read_int_bytes,
}

-- `d` before a read and `e` behind it.
pub record Moves (d e : DataInputX) : Type 0 where
  pub same : e.buf ≡ d.buf
  pub forward : d.offset ≤ e.offset
  pub inside : e.offset ≤ length d.buf

pub record InBounds {ℓ} {A : Type ℓ} (r : Reader A) : Type ℓ where
  pub moves : (d e : DataInputX) (a : A) → d.offset ≤ length d.buf → r d ≡ ok (a, e) → Moves d e

module _ {ℓ} {A : Type ℓ} where
  pub InBounds-return : (a : A) → InBounds (return a)
  unfolding return
  InBounds-return a = record { moves = λ d e b h eq. ground arith }

  pub InBounds-fail : (x : Error) → InBounds {A = A} (fail x)
  unfolding fail
  InBounds-fail x = record { moves = λ d e b h eq. cc }

  pub InBounds-crash : InBounds {A = A} crash
  unfolding crash
  InBounds-crash = record { moves = λ d e b h eq. cc }

  pub InBounds-no_fuel : InBounds {A = A} no_fuel
  unfolding no_fuel
  InBounds-no_fuel = record { moves = λ d e b h eq. cc }

  pub InBounds-if :
      (b : Bool) {r s : Reader A} → InBounds r → InBounds s → InBounds (if b then r else s)
  InBounds-if true p q = p
  InBounds-if false p q = q

  -- Where the second read starts, the first has stopped inside the buffer.
  bind-Moves {κ} :
      {B : Type κ} (r : Reader A) (f : A → Reader B) (d e : DataInputX) (b : B)
      (x : Result (A × DataInputX))
      → InBounds r
      → ((a : A) → InBounds (f a))
      → d.offset ≤ length d.buf
      → r d ≡ x
      → then_with x f ≡ ok (b, e)
      → Moves d e
  bind-Moves r f d e b (ok (a, m)) p q h eq next =
      let first = p.moves d m a h eq in
      let inside : m.offset ≤ length m.buf = rw first.same first.inside in
      let second = (q a).moves m e b inside next in
      let end : e.offset ≤ length d.buf =
        subst (λ (buf : List ℕ). e.offset ≤ length buf) first.same second.inside in
      record {
        same = second.same ∙ first.same;
        forward = omega (arith, first.forward, second.forward);
        inside = end;
      }
  bind-Moves r f d e b (err x) p q h eq next = cc
  bind-Moves r f d e b panic p q h eq next = cc
  bind-Moves r f d e b stuck p q h eq next = cc

  pub InBounds-bind {κ} :
      {B : Type κ} {r : Reader A} {f : A → Reader B}
      → InBounds r
      → ((a : A) → InBounds (f a))
      → InBounds (r >>= f)
  unfolding ◌>>=◌
  InBounds-bind {r = r} {f} p q = record {
    moves = λ d e b h eq. bind-Moves r f d e b (r d) p q h refl eq;
  }

  -- What a Create function made reads within the buffer.
  abbrev pub CreatesInBounds : Option (Reader A) → Type ℓ
  CreatesInBounds none = Unit
  CreatesInBounds (some r) = InBounds r

  pub created_if :
      (b : Bool) {r : Reader A} (o : Option (Reader A))
      → InBounds r
      → CreatesInBounds o
      → CreatesInBounds (if b then some r else o)
  created_if true o p q = p
  created_if false o p q = q

  pub InBounds-created :
      (t : ℕ) (o : Option (Reader A)) → CreatesInBounds o → InBounds (read_created t o)
  unfolding read_created
  InBounds-created t none p = InBounds-fail _
  InBounds-created t (some r) p = p

pub InBounds-bytes : (n : ℕ) → InBounds (read_bytes n)
unfolding read_bytes
InBounds-bytes n = record { moves = λ d e b h eq. ground arith }

pub InBounds-read : (n : ℕ) → InBounds (read n)
unfolding read
InBounds-read n = InBounds-if _ (InBounds-bytes n) InBounds-crash

pub InBounds-byte : InBounds read_byte
unfolding read_byte
InBounds-byte = record { moves = λ d e b h eq. ground (arith, get_elem?-lt d.buf d.offset b) }

-- What begins with a byte moves the offset.
after_byte {ℓ} :
    {B : Type ℓ} (g : ℕ → Reader B) (d e : DataInputX) (b : B) (x : Result (ℕ × DataInputX))
    → ((t : ℕ) → InBounds (g t))
    → d.offset ≤ length d.buf
    → read_byte d ≡ x
    → then_with x g ≡ ok (b, e)
    → d.offset < e.offset
unfolding read_byte
after_byte g d e b (ok (t, m)) q h eq next =
    let first = InBounds-byte.moves d m t h eq in
    let inside : m.offset ≤ length m.buf = rw first.same first.inside in
    let second = (q t).moves m e b inside next in
    let ahead : d.offset < m.offset = ground arith in omega (arith, ahead, second.forward)
after_byte g d e b (err x) q h eq next = cc
after_byte g d e b panic q h eq next = cc
after_byte g d e b stuck q h eq next = cc

pub byte-forward {ℓ} :
    {B : Type ℓ} (g : ℕ → Reader B) (d e : DataInputX) (b : B)
    → ((t : ℕ) → InBounds (g t))
    → d.offset ≤ length d.buf
    → (read_byte >>= g) d ≡ ok (b, e)
    → d.offset < e.offset
unfolding ◌>>=◌
byte-forward g d e b q h eq = after_byte g d e b (read_byte d) q h refl eq
