-- ===== src/Protocol/Fuel.antt =====
-- Fuel of the value readers: as many units as there are bytes left, and one more, are enough.
pub mod Words
pub mod Values
pub mod Packs
use scouter_server_go.Common.{
  ℕ, zero, suc, ◌+◌, ◌-◌, ◌≤◌, ◌<◌, ◌≡◌, ◌≢◌, refl, Bool, true, false, Option, none, some, List,
  length, get_elem?, get_elem?-lt, arith, if◌then◌else◌, Option-cases, inl, inr,
}
use scouter_server_go.Protocol.Input.{
  DataInputX, Result, ok, err, panic, stuck, eof, Error, advance, Reader, return, fail, crash,
  ◌>>=◌, then_with, read_bytes, read, read_byte, read_created,
}
use scouter_server_go.Protocol.Bounds.{Moves, InBounds}

-- With at most `n` bytes left the reader does not run out of fuel.
pub record HasFuel {ℓ} {A : Type ℓ} (n : ℕ) (r : Reader A) : Type ℓ where
  pub runs : (d : DataInputX) → d.offset ≤ length d.buf → length d.buf - d.offset ≤ n → r d ≢ stuck

module _ {ℓ} {A : Type ℓ} {n : ℕ} where
  pub HasFuel-return : (a : A) → HasFuel n (return a)
  unfolding return
  HasFuel-return a = record { runs = λ d h l e. cc }

  pub HasFuel-fail : (x : Error) → HasFuel {A = A} n (fail x)
  unfolding fail
  HasFuel-fail x = record { runs = λ d h l e. cc }

  pub HasFuel-crash : HasFuel {A = A} n crash
  unfolding crash
  HasFuel-crash = record { runs = λ d h l e. cc }

  pub HasFuel-if :
      (b : Bool) {r s : Reader A} → HasFuel n r → HasFuel n s → HasFuel n (if b then r else s)
  HasFuel-if true p q = p
  HasFuel-if false p q = q

  -- The second read starts with no more bytes left than the first.
  bind_runs {κ} :
      {B : Type κ} (r : Reader A) (f : A → Reader B) (d : DataInputX) (x : Result (A × DataInputX))
      → InBounds r
      → HasFuel n r
      → ((a : A) → HasFuel n (f a))
      → d.offset ≤ length d.buf
      → length d.buf - d.offset ≤ n
      → r d ≡ x
      → then_with x f ≢ stuck
  bind_runs r f d (ok (a, m)) i p q h l eq =
      let moved = i.moves d m a h eq in
      let inside : m.offset ≤ length m.buf = rw moved.same moved.inside in
      let less : length m.buf - m.offset ≤ n = rw moved.same (omega (arith, moved.forward)) in
      (q a).runs m inside less
  bind_runs r f d (err x) i p q h l eq = λ e. cc
  bind_runs r f d panic i p q h l eq = λ e. cc
  bind_runs r f d stuck i p q h l eq = absurd (p.runs d h l eq)

  pub HasFuel-bind {κ} :
      {B : Type κ} {r : Reader A} {f : A → Reader B}
      → InBounds r
      → HasFuel n r
      → ((a : A) → HasFuel n (f a))
      → HasFuel n (r >>= f)
  unfolding ◌>>=◌
  HasFuel-bind {r = r} {f} i p q = record { runs = λ d h l. bind_runs r f d (r d) i p q h l refl }

abbrev pub CreatesHasFuel {ℓ} : {A : Type ℓ} → ℕ → Option (Reader A) → Type ℓ
CreatesHasFuel n none = Unit
CreatesHasFuel n (some r) = HasFuel n r

module _ {ℓ} {A : Type ℓ} (n : ℕ) where
  pub created_if :
      (b : Bool) {r : Reader A} (o : Option (Reader A))
      → HasFuel n r
      → CreatesHasFuel n o
      → CreatesHasFuel n (if b then some r else o)
  created_if true o p q = p
  created_if false o p q = q

  pub HasFuel-created :
      (t : ℕ) (o : Option (Reader A)) → CreatesHasFuel n o → HasFuel n (read_created t o)
  unfolding read_created
  HasFuel-created t none p = HasFuel-fail _
  HasFuel-created t (some r) p = p

-- A byte that was read is one byte less for what follows.
pub HasFuel-byte_bind {ℓ} :
    {A : Type ℓ} {n : ℕ} {f : ℕ → Reader A}
    → ((b : ℕ) → HasFuel n (f b))
    → HasFuel (suc n) (read_byte >>= f)
unfolding ◌>>=◌ read_byte advance
HasFuel-byte_bind {n} {f} q = record {
  runs = λ d h l. elim (Option-cases (get_elem? d.buf d.offset)) [
    | inl e ↦ rw (e, read_byte) (λ x. cc)
    | inr (b, e) ↦
        rw (e, read_byte)
          ((q b).runs (advance d 1) (omega (arith, get_elem?-lt d.buf d.offset b e)) (omega arith))
  ];
}

-- With no byte left the byte is not there.
pub HasFuel-byte_bind_empty {ℓ} : {A : Type ℓ} (f : ℕ → Reader A) → HasFuel 0 (read_byte >>= f)
unfolding ◌>>=◌ read_byte advance
HasFuel-byte_bind_empty f = record {
  runs = λ d h l. elim (Option-cases (get_elem? d.buf d.offset)) [
    | inl e ↦ rw (e, read_byte) (λ x. cc)
    | inr (b, e) ↦ absurd (omega (arith, get_elem?-lt d.buf d.offset b e))
  ];
}

pub HasFuel-bytes : {n : ℕ} (k : ℕ) → HasFuel n (read_bytes k)
unfolding read_bytes
HasFuel-bytes k = record { runs = λ d h l e. ground arith }

pub HasFuel-read : {n : ℕ} (k : ℕ) → HasFuel n (read k)
unfolding read
HasFuel-read k = HasFuel-if _ (HasFuel-bytes k) HasFuel-crash

pub HasFuel-byte : {n : ℕ} → HasFuel n read_byte
unfolding read_byte
HasFuel-byte = record { runs = λ d h l e. ground arith }
