-- ===== src/Printf/Numbers.antt =====
-- kernel/prf.c: `ltob` and `put_unsigned`. The digits are made in reverse order and then turned.
use mathlib.Core.List.{reverse}
use fdkernel.Common.{ℕ, zero, suc, ◌+◌, ◌-◌, ◌/◌, ◌%◌, ◌^◌, List, [], ◌∷◌, ltb, ◌==◌, if◌then◌else◌}

-- "0123456789abcdef"[d].
abbrev pub digit : ℕ → ℕ
digit d = if ltb d 10 then b'0' + d else b'a' + (d - 10)

-- The `do` loop of `ltob`.
unfoldable pub digits : ℕ → ℕ → ℕ → List ℕ
digits base zero u = []
digits base (suc fuel) u =
    let rest = digits base fuel (u / base) in
    digit (u % base) ∷ (if u / base == 0 then [] else rest)

-- A number of 32 bits has at most 32 digits.
unfoldable pub ltob_unsigned : ℕ → ℕ → List ℕ
ltob_unsigned u base = reverse (digits base 32 u)

-- The base -10 of the code: the number as a signed one.
unfoldable pub ltob_signed : ℕ → List ℕ
ltob_signed n = if ltb n (2 ^ 31) then ltob_unsigned n 10 else b'-' ∷ ltob_unsigned (2 ^ 32 - n) 10

-- The digits of `put_unsigned`, in reverse order.
unfoldable pub low_digits : ℕ → ℕ → ℕ → List ℕ
low_digits base zero n = []
low_digits base (suc width) n = digit (n % base) ∷ low_digits base width (n / base)

-- What is put on the console.
unfoldable pub put_unsigned : ℕ → ℕ → ℕ → List ℕ
put_unsigned n base width = reverse (low_digits base width n)
