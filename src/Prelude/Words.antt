-- ===== src/Prelude/Words.antt =====
-- Unsigned machine words: the bounds of u64, u128 and i128, and Rust's saturating operations.
use Prim.Native.Nat.{ℕ, ◌+◌, ◌-◌, ◌*◌, ◌^◌, ◌≤◌, min}
use native.Mathlib.Omega.{arith}
use ce_pin.Prelude.Tests.{ltb, if◌then◌else◌}

abbrev pub u64_max : ℕ
u64_max = 2 ^ 64 - 1

abbrev pub u128_max : ℕ
u128_max = 2 ^ 128 - 1

-- `u64::saturating_add`
abbrev pub sat_add_64 : ℕ → ℕ → ℕ
sat_add_64 a b = min (a + b) u64_max

-- `u128::saturating_mul`
abbrev pub sat_mul_128 : ℕ → ℕ → ℕ
sat_mul_128 a b = min (a * b) u128_max

-- `i128`: natural numbers, and those below zero as their predecessors' distance.
pub data ℤ : Type 0 where
  pos : ℕ → ℤ
  negsuc : ℕ → ℤ

-- `as i128` at a `u128`: the upper half wraps.
abbrev pub as_i128 : ℕ → ℤ
as_i128 n = if ltb n (2 ^ 127) then pos n else negsuc (2 ^ 128 - 1 - n)

pub mul_le_mul : (a b c d : ℕ) → a ≤ b → c ≤ d → a * c ≤ b * d
mul_le_mul a b c d h k = grind arith

pub sat_mul_128_mono : (a b c d : ℕ) → a ≤ b → c ≤ d → sat_mul_128 a c ≤ sat_mul_128 b d
sat_mul_128_mono a b c d h k = omega (arith, mul_le_mul a b c d h k)
