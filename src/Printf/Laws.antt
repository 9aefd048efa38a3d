-- ===== src/Printf/Laws.antt =====
-- kernel/prf.c: what `ltob`, `put_unsigned` and `do_printf` write is the number, in enough places.
use mathlib.Core.List.{reverse, reverse-append}
use fdkernel.Common.{
  ℕ, zero, suc, ◌+◌, ◌-◌, ◌*◌, ◌/◌, ◌%◌, ◌^◌, ◌≤◌, ◌<◌, ◌≡◌, inl, inr, refl, true, false, List, [],
  ◌∷◌, ◌++◌, ltb, ◌==◌, if◌then◌else◌, length, length-append, replicate, arith, ap, sym, ◌∙◌,
  Bool-cases,
}
use fdkernel.Printf.Numbers.{digit, digits, ltob_unsigned, ltob_signed, low_digits, put_unsigned}
use fdkernel.Printf.Format.{starts, tail, zero_filled, put_field, fill_count}
use fdkernel.Printf.Digits.{
  read_number, read_from, pow, digits_value, read_number-reverse, reverse_fits, length-reverse,
  mod_split, last_digit, reversed_value, digit_value,
}

pub unsigned_value :
    (u base : ℕ) → 2 ≤ base → base ≤ 16 → u < 2 ^ 32 → read_number base (ltob_unsigned u base) ≡ u
unfolding ltob_unsigned
unsigned_value u base two few below =
    read_number-reverse base (digits base 32 u) ∙ digits_value base 31 u two few (omega arith)

-- The text of a number of 32 bits reads back as that number, in a base of 2 to 16, and has at most
-- `suc k` digits when the number is below that power of the base.
pub ltob_unsigned-read_number :
    (u base k : ℕ)
    → 2 ≤ base
    → base ≤ 16
    → u < 2 ^ 32
    → u < pow base (suc k)
    → read_number base (ltob_unsigned u base) ≡ u × length (ltob_unsigned u base) ≤ suc k
ltob_unsigned-read_number u base k two few below fits =
    (unsigned_value u base two few below, reverse_fits u base k two fits)

-- A signed number read from its digits, as 32 bits.
abbrev pub read_signed : List ℕ → ℕ
read_signed s = if starts b'-' s then 2 ^ 32 - read_number 10 (tail s) else read_number 10 s

no_sign_concat :
    (s : List ℕ) (c : ℕ)
    → starts b'-' s ≡ false
    → (c == b'-') ≡ false
    → starts b'-' (s ++ c ∷ []) ≡ false
no_sign_concat [] c plain other = other
no_sign_concat (x ∷ s) c plain other = plain

no_sign : (fuel u : ℕ) → starts b'-' (reverse (digits 10 fuel u)) ≡ false
unfolding digits
no_sign zero u = refl
no_sign (suc fuel) u =
    let other : (digit (u % 10) == b'-') ≡ false = ground arith in
    elim (Bool-cases (u / 10 == 0)) [
      | inl last ↦ rw last other
      | inr more ↦ rw more (
          ap (starts b'-') (reverse-append (digit (u % 10) ∷ []) (digits 10 fuel (u / 10)))
          ∙ no_sign_concat (reverse (digits 10 fuel (u / 10))) (digit (u % 10))
              (no_sign fuel (u / 10)) other)
    ]

unsigned_plain : (u : ℕ) → starts b'-' (ltob_unsigned u 10) ≡ false
unfolding ltob_unsigned
unsigned_plain u = no_sign 32 u

pub signed_plain : (n : ℕ) → ltb n (2 ^ 31) ≡ true → ltob_signed n ≡ ltob_unsigned n 10
unfolding ltob_signed
signed_plain n positive = rw positive refl

pub signed_minus :
    (n : ℕ) → ltb n (2 ^ 31) ≡ false → ltob_signed n ≡ b'-' ∷ ltob_unsigned (2 ^ 32 - n) 10
unfolding ltob_signed
signed_minus n negative = rw negative refl

-- The text of a signed number of 32 bits reads back as that number, and has at most 11 characters.
pub ltob_signed_lem :
    (n : ℕ) → n < 2 ^ 32 → read_signed (ltob_signed n) ≡ n × length (ltob_signed n) ≤ 11
ltob_signed_lem n below = elim (Bool-cases (ltb n (2 ^ 31))) [
  | inl positive ↦
      let half : n < 2147483648 = ground arith in
      rw (signed_plain n positive) (
        rw (unsigned_plain n) (unsigned_value n 10 (omega arith) (omega arith) below),
        omega (arith, reverse_fits n 10 9 (omega arith) (omega arith)),
      )
  | inr negative ↦
      let half : 2147483648 ≤ n = ground arith in
      rw (signed_minus n negative) (
        omega (arith, unsigned_value (2 ^ 32 - n) 10 (omega arith) (omega arith) (omega arith)),
        omega (arith, reverse_fits (2 ^ 32 - n) 10 9 (omega arith) (omega arith)),
      )
]

pow_positive : (base k : ℕ) → 0 < base → 0 < pow base k
pow_positive base zero some_base = omega arith
pow_positive base (suc k) some_base = grind (arith, pow_positive base k some_base)

low_value :
    (base width n : ℕ)
    → 2 ≤ base
    → base ≤ 16
    → reversed_value base (low_digits base width n) ≡ n % pow base width
unfolding low_digits
low_value base zero n two few = omega arith
low_value base (suc width) n two few =
    ap (λ t. t * base + digit_value (digit (n % base))) (low_value base width (n / base) two few)
    ∙ ap (λ t. n / base % pow base width * base + t) (last_digit n base two few)
    ∙ sym (mod_split n base (pow base width) (omega arith) (pow_positive base width (omega arith)))

low_length : (base width n : ℕ) → length (low_digits base width n) ≡ width
unfolding low_digits
low_length base zero n = refl
low_length base (suc width) n = ap suc (low_length base width (n / base))

-- `put_unsigned` writes as many digits as it is asked for, and they read back as the number below
-- that power of the base.
pub put_unsigned_lem :
    (n base width : ℕ)
    → 2 ≤ base
    → base ≤ 16
    → length (put_unsigned n base width) ≡ width
      × read_number base (put_unsigned n base width) ≡ n % pow base width
unfolding put_unsigned
put_unsigned_lem n base width two few = (
  length-reverse (low_digits base width n) ∙ low_length base width n,
  read_number-reverse base (low_digits base width n) ∙ low_value base width n two few,
)

fill_count_lem :
    (size len : ℕ)
    → size < 2 ^ 15
    → len < 2 ^ 15
    → len + fill_count size len ≡ (if ltb len size then size else len)
fill_count_lem size len small short = ground arith

read_zeros :
    (base n : ℕ) (s : List ℕ) → read_from base 0 (replicate n b'0' ++ s) ≡ read_from base 0 s
read_zeros base zero s = refl
read_zeros base (suc n) s =
    let still : 0 * base + 0 ≡ 0 = omega arith in
    ap (λ acc. read_from base acc (replicate n b'0' ++ s)) still ∙ read_zeros base n s

length-replicate : (n c : ℕ) → length (replicate n c) ≡ n
length-replicate zero c = refl
length-replicate (suc n) c = ap suc (length-replicate n c)

power_two : (base k : ℕ) → 2 ≤ base → pow 2 k ≤ pow base k
power_two base zero two = omega arith
power_two base (suc k) two = grind (arith, power_two base k two)

pub digits_at_most : (u base : ℕ) → 2 ≤ base → u < 2 ^ 32 → length (ltob_unsigned u base) ≤ 32
digits_at_most u base two below = reverse_fits u base 31 two (omega (arith, power_two base 32 two))

-- A number of 32 bits that is filled with zeros on the left reads back as that number, and takes
-- the width asked for, or the places of its digits when they are more.
pub put_field-ltob_unsigned :
    (u base size : ℕ)
    → 2 ≤ base
    → base ≤ 16
    → u < 2 ^ 32
    → size < 2 ^ 15
    → read_number base (put_field (zero_filled size) (ltob_unsigned u base)) ≡ u
      × length (put_field (zero_filled size) (ltob_unsigned u base))
        ≡ (if ltb (length (ltob_unsigned u base)) size then size else length (ltob_unsigned u base))
unfolding put_field
put_field-ltob_unsigned u base size two few below small =
    let p = ltob_unsigned u base in
    let n = fill_count size (length p) in
    let short : length p ≤ 32 = digits_at_most u base two below in
    (
      read_zeros base n p ∙ unsigned_value u base two few below,
      length-append (replicate n b'0') p
          ∙ ap (λ t. t + length p) (length-replicate n b'0')
          ∙ omega arith
          ∙ fill_count_lem size (length p) small (omega arith),
    )
