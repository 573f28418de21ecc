-- ===== src/Prelude/Int.antt =====
-- Signed integers: what the program does with them is a test of the sign and a comparison.
use Prim.Native.Nat.{ℕ}
use mathlib.Core.Bool.{Bool, true, false}

-- `negsuc n` is -(n + 1).
pub data ℤ : Type 0 where
  pos : ℕ → ℤ
  negsuc : ℕ → ℤ

abbrev pub is_negative : ℤ → Bool
is_negative (pos n) = false
is_negative (negsuc n) = true

-- The value of a positive integer, and 0 for the others.
abbrev pub pos_part : ℤ → ℕ
pos_part (pos n) = n
pos_part (negsuc n) = 0

-- 2 ^ 63: the numbers below it are those of an int64 that are not negative.
abbrev pub int64_limit : ℕ
int64_limit = 9223372036854775808
