-- ===== src/Common/Int.antt =====
-- Integers over the native numbers, for counters that the code lets fall below zero.
use Prim.Native.Nat.{ℕ, zero, suc, ◌+◌, ◌-◌}
use plenum.Common.Tests.{ltb}
use mathlib.Core.Bool.{Bool, true, false}

-- `negsuc n` is -(n + 1).
pub data ℤ : Type 0 where
  pos : ℕ → ℤ
  negsuc : ℕ → ℤ

-- `x - 1`
abbrev pub pred_ℤ : ℤ → ℤ
pred_ℤ (pos zero) = negsuc 0
pred_ℤ (pos (suc n)) = pos n
pred_ℤ (negsuc n) = negsuc (suc n)

abbrev pub is_zero : ℤ → Bool
is_zero (pos zero) = true
is_zero _ = false

abbrev pub ltb_ℤ : ℤ → ℤ → Bool
ltb_ℤ (pos m) (pos n) = ltb m n
ltb_ℤ (pos m) (negsuc n) = false
ltb_ℤ (negsuc m) (pos n) = true
ltb_ℤ (negsuc m) (negsuc n) = ltb n m

-- `n - m` for integers of which `n` is not the smaller
abbrev pub distance_ℤ : ℤ → ℤ → ℕ
distance_ℤ (pos m) (pos n) = n - m
distance_ℤ (pos m) (negsuc n) = 0
distance_ℤ (negsuc m) (pos n) = m + 1 + n
distance_ℤ (negsuc m) (negsuc n) = m - n
