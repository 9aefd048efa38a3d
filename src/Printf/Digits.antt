-- ===== src/Printf/Digits.antt =====
-- The digits that kernel/prf.c prints, read again.
use mathlib.Core.List.{reverse, reverse-append}
use fdkernel.Common.{
  ℕ, zero, suc, ◌+◌, ◌-◌, ◌*◌, ◌/◌, ◌%◌, ◌≤◌, ◌<◌, ◌≡◌, inl, inr, refl, true, List, [], ◌∷◌, ◌++◌,
  leb, ◌==◌, if◌then◌else◌, length, length-append, arith, ap, ◌∙◌, Bool-cases, split_lem,
  unique_lem, rest_lt, div_lt,
}
use fdkernel.Printf.Numbers.{digit, digits, ltob_unsigned}

abbrev pub digit_value : ℕ → ℕ
digit_value c = if leb b'a' c then c - b'a' + 10 else c - b'0'

-- A number read from its digits, the first of which counts most.
abbrev pub read_from : ℕ → ℕ → List ℕ → ℕ
read_from base acc [] = acc
read_from base acc (c ∷ s) = read_from base (acc * base + digit_value c) s

abbrev pub read_number : ℕ → List ℕ → ℕ
read_number base s = read_from base 0 s

digit_value-digit : (d : ℕ) → d < 16 → digit_value (digit d) ≡ d
digit_value-digit d small = ground arith

-- The value of digits in reverse order.
abbrev pub reversed_value : ℕ → List ℕ → ℕ
reversed_value base [] = 0
reversed_value base (c ∷ s) = reversed_value base s * base + digit_value c

read_from-concat :
    (base acc c : ℕ) (s : List ℕ)
    → read_from base acc (s ++ c ∷ []) ≡ read_from base acc s * base + digit_value c
read_from-concat base acc c [] = refl
read_from-concat base acc c (x ∷ s) = read_from-concat base (acc * base + digit_value x) c s

pub read_number-reverse :
    (base : ℕ) (s : List ℕ) → read_number base (reverse s) ≡ reversed_value base s
read_number-reverse base [] = refl
read_number-reverse base (c ∷ s) =
    ap (read_number base) (reverse-append (c ∷ []) s)
    ∙ read_from-concat base 0 c (reverse s)
    ∙ ap (λ n. n * base + digit_value c) (read_number-reverse base s)

abbrev pub pow : ℕ → ℕ → ℕ
pow base zero = 1
pow base (suc k) = base * pow base k

half_lt : (u base half : ℕ) → 2 ≤ base → u < 2 * half → u / base < half
half_lt u base half two below = grind arith

pub last_digit : (u base : ℕ) → 2 ≤ base → base ≤ 16 → digit_value (digit (u % base)) ≡ u % base
last_digit u base two few =
    digit_value-digit (u % base) (omega (arith, rest_lt u base (omega arith)))

last_value :
    (u base : ℕ)
    → 2 ≤ base
    → base ≤ 16
    → (u / base == 0) ≡ true
    → 0 * base + digit_value (digit (u % base)) ≡ u
last_value u base two few last =
    let none_left : u / base ≡ 0 = ground arith in
    let product : u / base * base ≡ 0 = ap (λ n. n * base) none_left ∙ omega arith in
    omega (arith, last_digit u base two few, (split_lem u base (omega arith)).0)

pub digits_value :
    (base fuel u : ℕ)
    → 2 ≤ base
    → base ≤ 16
    → u < pow 2 (suc fuel)
    → reversed_value base (digits base (suc fuel) u) ≡ u
unfolding digits
digits_value base zero u two few below =
    let last : (u / base == 0) ≡ true = ground (arith, half_lt u base 1 two below) in
    rw last (last_value u base two few last)
digits_value base (suc fuel) u two few below = elim (Bool-cases (u / base == 0)) [
  | inl last ↦ rw last (last_value u base two few last)
  | inr more ↦ rw more (
      ap (λ n. n * base + digit_value (digit (u % base)))
        (digits_value base fuel (u / base) two few (half_lt u base (pow 2 (suc fuel)) two below))
      ∙ omega (arith, last_digit u base two few, (split_lem u base (omega arith)).0))
]

length-digits :
    (base fuel k u : ℕ) → 2 ≤ base → u < pow base (suc k) → length (digits base fuel u) ≤ suc k
unfolding digits
length-digits base zero k u two below = omega arith
length-digits base (suc fuel) zero u two below =
    let small : u / base < 1 = div_lt u base 1 (omega arith) below in
    let last : (u / base == 0) ≡ true = ground arith in rw last (omega arith)
length-digits base (suc fuel) (suc k) u two below = elim (Bool-cases (u / base == 0)) [
  | inl last ↦ rw last (omega arith)
  | inr more ↦ rw more (
      omega (
        arith,
        length-digits base fuel k (u / base) two
            (div_lt u base (pow base (suc k)) (omega arith) below),
      ))
]

index_lt : (b base p r : ℕ) → b < p → r < base → b * base + r < base * p
index_lt b base p r below short = grind arith

regroup : (a p b base r : ℕ) → (a * p + b) * base + r ≡ a * (base * p) + (b * base + r)
regroup a p b base r = grind arith

pub mod_split : (n base p : ℕ) → 0 < base → 0 < p → n % (base * p) ≡ n / base % p * base + n % base
mod_split n base p positive some_p =
    let q : ℕ = n / base in
    let (n_is, r_short) = split_lem n base positive in
    let (q_is, b_short) = split_lem q p some_p in
    let short : q % p * base + n % base < base * p =
      index_lt (q % p) base p (n % base) b_short r_short in
    let sum : n ≡ q / p * (base * p) + (q % p * base + n % base) =
      n_is ∙ ap (λ t. t * base + n % base) q_is ∙ regroup (q / p) p (q % p) base (n % base) in
    (unique_lem n (q / p) (q % p * base + n % base) (base * p) short sum).1

pub length-reverse : (s : List ℕ) → length (reverse s) ≡ length s
length-reverse [] = refl
length-reverse (c ∷ s) =
    ap length (reverse-append (c ∷ []) s)
    ∙ omega (arith, length-append (reverse s) (c ∷ []), length-reverse s)

pub reverse_fits :
    (u base k : ℕ) → 2 ≤ base → u < pow base (suc k) → length (ltob_unsigned u base) ≤ suc k
unfolding ltob_unsigned
reverse_fits u base k two below =
    omega (arith, length-reverse (digits base 32 u), length-digits base 32 k u two below)
