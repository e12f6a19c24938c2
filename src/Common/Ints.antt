-- ===== src/Common/Ints.antt =====
-- Signed integers over the native numbers, with the tests that the code makes of them.
use Prim.Native.Nat.{ℕ, zero, suc, ◌+◌}
use mathlib.Core.Path.{◌≡◌}
use native.Mathlib.Omega.{arith}
use mathlib.Core.Bool.{Bool, true, false}
use scouter_server_go.Common.Tests.{ltb, ◌==◌}

pub data ℤ : Type 0 where
  pos : ℕ → ℤ
  negsuc : ℕ → ℤ

abbrev pub ltb_int : ℤ → ℤ → Bool
ltb_int (pos a) (pos b) = ltb a b
ltb_int (pos a) (negsuc b) = false
ltb_int (negsuc a) (pos b) = true
ltb_int (negsuc a) (negsuc b) = ltb b a

abbrev pub eq_int : ℤ → ℤ → Bool
eq_int (pos a) (pos b) = a == b
eq_int (pos a) (negsuc b) = false
eq_int (negsuc a) (pos b) = false
eq_int (negsuc a) (negsuc b) = a == b

-- One less than a natural number.
abbrev pub pred_int : ℕ → ℤ
pred_int zero = negsuc 0
pred_int (suc n) = pos n

pub ltb_int-pred : (a n : ℕ) → ltb_int (pos a) (pred_int n) ≡ ltb (a + 1) n
ltb_int-pred a zero = ground arith
ltb_int-pred a (suc n) = ground arith

pub eq_int-pred : (a n : ℕ) → eq_int (pos a) (pred_int n) ≡ (a + 1 == n)
eq_int-pred a zero = ground arith
eq_int-pred a (suc n) = ground arith
