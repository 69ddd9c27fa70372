-- ===== src/Prelude/Int.antt =====
-- Python's `int` as far as the program computes with it: comparison, `max`, difference.
use Prim.Native.Nat.{ℕ, zero, suc, ◌≤◌, max, min}
use native.Mathlib.Omega.{arith}
use mathlib.Core.Bool.{Bool, true, false}
use media_shuttle.Prelude.Tests.{ltb}

-- `negsuc n` is -(n + 1).
pub data ℤ : Type 0 where
  pos : ℕ → ℤ
  negsuc : ℕ → ℤ

-- `n < z` for a count `n`.
abbrev pub lt_int : ℕ → ℤ → Bool
lt_int n (pos m) = ltb n m
lt_int n (negsuc m) = false

-- `max(1, z)`
abbrev pub at_least_one : ℤ → ℕ
at_least_one (pos n) = max 1 n
at_least_one (negsuc n) = 1

-- `max(1, min(z, top))`
abbrev pub clamp_to : ℕ → ℤ → ℕ
clamp_to top (pos n) = max 1 (min n top)
clamp_to top (negsuc n) = 1

-- `z <= 0`
abbrev pub not_positive : ℤ → Bool
not_positive (pos zero) = true
not_positive (pos (suc n)) = false
not_positive (negsuc n) = true

pub clamp_to-le : (top : ℕ) (z : ℤ) → clamp_to top z ≤ max 1 top
clamp_to-le top (pos n) = omega arith
clamp_to-le top (negsuc n) = omega arith

pub at_least_one-pos : (z : ℤ) → 1 ≤ at_least_one z
at_least_one-pos (pos n) = omega arith
at_least_one-pos (negsuc n) = omega arith
