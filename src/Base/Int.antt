-- ===== src/Base/Int.antt =====
-- Signed `int` values, where the program gives negative ones a meaning.
use rcom.Base.Tests.{◌==◌}
use mathlib.Core.Bool.{Bool, false}
use Prim.Native.Nat.{ℕ}

-- `negsuc n` is -(n + 1).
pub data ℤ : Type 0 where
  pos : ℕ → ℤ
  negsuc : ℕ → ℤ

-- `err == 0`
abbrev pub is_zero : ℤ → Bool
is_zero (pos n) = n == 0
is_zero (negsuc n) = false
