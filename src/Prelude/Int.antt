-- ===== src/Prelude/Int.antt =====
-- The integers, for Go's signed types.
use Prim.Native.Nat.{ℕ, zero}
use mathlib.Core.Bool.{Bool, true, false}
use filecloud.Prelude.Tests.{ltb}

-- `negsuc n` is -(n + 1).
pub data ℤ : Type 0 where
  pos : ℕ → ℤ
  negsuc : ℕ → ℤ

abbrev pub is_zero : ℤ → Bool
is_zero (pos zero) = true
is_zero _ = false

-- `a < b`
abbrev pub less : ℤ → ℤ → Bool
less (pos m) (pos n) = ltb m n
less (pos m) (negsuc n) = false
less (negsuc m) (pos n) = true
less (negsuc m) (negsuc n) = ltb n m
