-- ===== src/Common/Int.antt =====
-- Integers as far as the columns need them: a number or, as `negsuc n`, -(n + 1), and equality.
use Prim.Native.Nat.{ℕ}
use mathlib.Core.Bool.{Bool, false}
use my_fans.Common.Tests.{◌==◌}

pub data ℤ : Type 0 where
  pos : ℕ → ℤ
  negsuc : ℕ → ℤ

abbrev pub eq_ℤ : ℤ → ℤ → Bool
eq_ℤ (pos a) (pos b) = a == b
eq_ℤ (pos a) (negsuc b) = false
eq_ℤ (negsuc a) (pos b) = false
eq_ℤ (negsuc a) (negsuc b) = a == b
