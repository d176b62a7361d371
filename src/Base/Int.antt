-- ===== src/Base/Int.antt =====
-- Signed positions, over the native numbers.
use Prim.Native.Nat.{ℕ, suc, ◌+◌, ◌-◌}
use mathlib.Core.Bool.{Bool, true, false}
use verilog_behavioral_simul.Base.Tests.{leb, ◌==◌, if◌then◌else◌}

pub data ℤ : Type 0 where
  pos : ℕ → ℤ
  negsuc : ℕ → ℤ

abbrev pub is_neg : ℤ → Bool
is_neg (pos a) = false
is_neg (negsuc a) = true

-- `a >= b`, and then `a - b`.
abbrev pub geq : ℤ → ℤ → Bool
geq (pos a) (pos b) = leb b a
geq (pos a) (negsuc b) = true
geq (negsuc a) (pos b) = false
geq (negsuc a) (negsuc b) = leb a b

abbrev pub gap : ℤ → ℤ → ℕ
gap (pos a) (pos b) = a - b
gap (pos a) (negsuc b) = suc (a + b)
gap (negsuc a) (pos b) = 0
gap (negsuc a) (negsuc b) = b - a

-- `t - x`.
abbrev pub minus : ℕ → ℤ → ℤ
minus t (pos x) = if leb x t then pos (t - x) else negsuc (x - t - 1)
minus t (negsuc x) = pos (suc (t + x))

abbrev pub same_int : ℤ → ℤ → Bool
same_int (pos a) (pos b) = a == b
same_int (negsuc a) (negsuc b) = a == b
same_int _ _ = false
