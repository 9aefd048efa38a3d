-- ===== src/Common/Division.antt =====
-- Quotients and remainders by a variable.
use Prim.Native.Nat.{ℕ, ◌+◌, ◌*◌, ◌/◌, ◌%◌, ◌≤◌, ◌<◌}
use mathlib.Core.Path.{◌≡◌}
use native.Mathlib.Omega.{arith}

pub split_lem : (x m : ℕ) → 0 < m → (x ≡ x / m * m + x % m) × (x % m < m)
split_lem x m h = (grind arith, grind arith)

pub unique_lem : (x q r m : ℕ) → r < m → x ≡ q * m + r → (x / m ≡ q) × (x % m ≡ r)
unique_lem x q r m h e = (grind arith, grind arith)

pub div_le : (x m : ℕ) → 0 < m → x / m ≤ x
div_le x m h = grind arith

pub rest_lt : (x m : ℕ) → 0 < m → x % m < m
rest_lt x m h = grind arith

pub div_lt : (x m bound : ℕ) → 0 < m → x < m * bound → x / m < bound
div_lt x m bound h below = grind arith
