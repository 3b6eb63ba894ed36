-- ===== src/Common/Int.antt =====
-- Go's signed integers (int, int64), of which the program compares values and never computes any.
use Prim.Native.Nat.{ℕ}
use mathlib.Core.Bool.{Bool, true, false}
use financial_crime_complian.Common.Tests.{ltb, eqb}

-- `negsuc n` is -(n + 1).
pub data ℤ : Type 0 where
  pos : ℕ → ℤ
  negsuc : ℕ → ℤ

-- z < k, for a constant k that is not negative.
abbrev pub is_below : ℤ → ℕ → Bool
is_below (pos n) k = ltb n k
is_below (negsuc n) k = true

-- k < z
abbrev pub is_above : ℤ → ℕ → Bool
is_above (pos n) k = ltb k n
is_above (negsuc n) k = false

abbrev pub int_eq : ℤ → ℤ → Bool
int_eq (pos n) (pos m) = eqb n m
int_eq (negsuc n) (negsuc m) = eqb n m
int_eq _ _ = false

-- The value of an integer that a test has found not to be negative.
abbrev pub to_nat : ℤ → ℕ
to_nat (pos n) = n
to_nat (negsuc n) = 0
