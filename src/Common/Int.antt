-- ===== src/Common/Int.antt =====
-- C's `int` results: a code that is zero, a count, or a negated error number.
use Prim.Native.Nat.{ℕ, suc, ◌-◌, ◌%◌, ◌^◌}

-- `negsuc n` is -(n + 1).
pub data ℤ : Type 0 where
  pos : ℕ → ℤ
  negsuc : ℕ → ℤ

-- The 16-bit register that receives an `int`.
abbrev pub to_word : ℤ → ℕ
to_word (pos n) = n % 2 ^ 16
to_word (negsuc n) = (2 ^ 16 - suc (n % 2 ^ 16)) % 2 ^ 16
