-- ===== src/Config/RoundTrip.antt =====
-- kernel/config.c: `GetNumArg` reads the numbers that kernel/prf.c writes.
use mathlib.Core.List.{reverse, reverse-append}
use fdkernel.Common.{
  ℕ, zero, suc, ◌+◌, ◌-◌, ◌*◌, ◌/◌, ◌%◌, ◌^◌, ◌≤◌, ◌<◌, ◌≡◌, inl, inr, refl, Bool, true, false, not,
  ◌&&◌, List, [], ◌∷◌, ◌++◌, ltb, leb, ◌==◌, none, some, length, arith, Bool-cases, ap, ◌∙◌,
}
use fdkernel.Printf.Numbers.{digit, digits, ltob_unsigned, ltob_signed}
use fdkernel.Printf.Format.{extended}
use fdkernel.Printf.Digits.{digit_value, read_from, read_number, length-reverse}
use fdkernel.Printf.Laws.{unsigned_value, signed_plain, signed_minus}
use fdkernel.Config.Words.{iswh, isnum, toupper, skipwh}
use fdkernel.Config.Numbers.{digit_index, get_digits, get_num_arg, negative}

-- A text of decimal digits.
abbrev AllDigits : List ℕ → Type 0
AllDigits [] = 0 ≤ 0
AllDigits (c ∷ s) = (isnum c ≡ true) × AllDigits s

AllDigits-concat : (s t : List ℕ) → AllDigits s → AllDigits t → AllDigits (s ++ t)
AllDigits-concat [] t all others = others
AllDigits-concat (c ∷ s) t (one, all) others = (one, AllDigits-concat s t all others)

digits-AllDigits : (fuel u : ℕ) → AllDigits (reverse (digits 10 fuel u))
unfolding digits
digits-AllDigits zero u = omega arith
digits-AllDigits (suc fuel) u =
    let one : isnum (digit (u % 10)) ≡ true = ground arith in
    elim (Bool-cases (u / 10 == 0)) [
      | inl last ↦ rw last (one, omega arith)
      | inr more ↦ rw more (
          rw (reverse-append (digit (u % 10) ∷ []) (digits 10 fuel (u / 10))) (
            AllDigits-concat (reverse (digits 10 fuel (u / 10))) (digit (u % 10) ∷ [])
              (digits-AllDigits fuel (u / 10)) (one, omega arith)))
    ]

-- Where the number ends: the string does, or a character that is no part of a number follows.
abbrev pub ends_number : List ℕ → Bool
ends_number [] = true
ends_number (c ∷ s) =
    not (isnum c) && not (leb b'A' (toupper c) && leb (toupper c) b'F') && not (toupper c == b'X')

no_digit : (u : ℕ) → isnum u ≡ false → (leb b'A' u && leb u b'F') ≡ false → digit_index u ≡ none
no_digit u no_number no_letter = rw no_number (rw no_letter refl)

digit_found : (c : ℕ) → isnum c ≡ true → digit_index (toupper c) ≡ some (digit_value c)
digit_found c one =
    let same : toupper c ≡ c = ground arith in
    let value : c - b'0' ≡ digit_value c = ground arith in
    ap digit_index same ∙ rw one (ap some value)

get_digits-end :
    (base n : ℕ) (rest : List ℕ) → ends_number rest ≡ true → get_digits base n rest ≡ (n, rest)
unfolding get_digits
get_digits-end base n [] ends = refl
get_digits-end base n (c ∷ s) ends =
    let plain : (toupper c == b'X') ≡ false = ground arith in
    let bad : digit_index (toupper c) ≡ none = no_digit (toupper c) (ground arith) (ground arith) in
    rw plain (rw bad refl)

read_from_le : (acc : ℕ) (s : List ℕ) → acc ≤ read_from 10 acc s
read_from_le acc [] = omega arith
read_from_le acc (c ∷ s) = omega (arith, read_from_le (acc * 10 + digit_value c) s)

get_digits-read_from :
    (acc : ℕ) (s rest : List ℕ)
    → AllDigits s
    → ends_number rest ≡ true
    → read_from 10 acc s < 2 ^ 16
    → get_digits 10 acc (s ++ rest) ≡ (read_from 10 acc s, rest)
unfolding get_digits
get_digits-read_from acc [] rest all ends short = get_digits-end 10 acc rest ends
get_digits-read_from acc (c ∷ s) rest (one, all) ends short =
    let plain : (toupper c == b'X') ≡ false = ground arith in
    let found : digit_index (toupper c) ≡ some (digit_value c) = digit_found c one in
    let word : (acc * 10 + digit_value c) % 2 ^ 16 ≡ acc * 10 + digit_value c =
      omega (arith, read_from_le (acc * 10 + digit_value c) s) in
    rw plain
      (rw found (rw word (get_digits-read_from (acc * 10 + digit_value c) s rest all ends short)))

text-AllDigits : (u : ℕ) → AllDigits (ltob_unsigned u 10)
unfolding ltob_unsigned
text-AllDigits u = digits-AllDigits 32 u

unsigned_read :
    (u : ℕ) (rest : List ℕ)
    → u < 2 ^ 16
    → ends_number rest ≡ true
    → get_digits 10 0 (ltob_unsigned u 10 ++ rest) ≡ (u, rest)
unsigned_read u rest short ends =
    let value : read_number 10 (ltob_unsigned u 10) ≡ u =
      unsigned_value u 10 (omega arith) (omega arith) (omega arith) in
    get_digits-read_from 0 (ltob_unsigned u 10) rest (text-AllDigits u) ends (omega (arith, value))
    ∙ ap (λ n. (n, rest)) value

some_text : (u : ℕ) → 1 ≤ length (ltob_unsigned u 10)
unfolding ltob_unsigned digits
some_text u = omega (arith, length-reverse (digits 10 32 u))

get_num_arg-digits :
    (s rest : List ℕ)
    → AllDigits s
    → 1 ≤ length s
    → get_num_arg (s ++ rest) ≡ some (get_digits 10 0 (s ++ rest))
unfolding get_num_arg skipwh
get_num_arg-digits [] rest all some_s = absurd (omega arith)
get_num_arg-digits (c ∷ s) rest (one, all) some_s =
    let black : iswh c ≡ false = ground arith in
    let plain : (c == b'-') ≡ false = ground arith in rw black (rw plain (rw one refl))

get_num_arg-unsigned :
    (u : ℕ) (rest : List ℕ)
    → u < 2 ^ 16
    → ends_number rest ≡ true
    → get_num_arg (ltob_unsigned u 10 ++ rest) ≡ some (u, rest)
get_num_arg-unsigned u rest short ends =
    get_num_arg-digits (ltob_unsigned u 10) rest (text-AllDigits u) (some_text u)
    ∙ ap some (unsigned_read u rest short ends)

get_num_arg-minus :
    (u : ℕ) (rest : List ℕ)
    → u < 2 ^ 16
    → ends_number rest ≡ true
    → get_num_arg (b'-' ∷ (ltob_unsigned u 10 ++ rest)) ≡ some ((2 ^ 16 - u) % 2 ^ 16, rest)
unfolding get_num_arg skipwh
get_num_arg-minus u rest short ends = ap (λ r. some (negative r)) (unsigned_read u rest short ends)

-- What %d prints of an `int`, GetNumArg reads: the same number, up to where the text goes on with
-- something that is no part of a number.
pub get_num_arg-ltob_signed :
    (n : ℕ) (rest : List ℕ)
    → n < 2 ^ 16
    → ends_number rest ≡ true
    → get_num_arg (ltob_signed (extended true n) ++ rest) ≡ some (n, rest)
get_num_arg-ltob_signed n rest short ends = elim (Bool-cases (leb (2 ^ 15) n)) [
  | inl minus ↦
      let half : 32768 ≤ n = ground arith in
      let long : extended true n ≡ n + 4294901760 = rw minus refl in
      let wide : ltb (n + 4294901760) (2 ^ 31) ≡ false = ground arith in
      let size : 2 ^ 32 - (n + 4294901760) ≡ 65536 - n = omega arith in
      let back : (2 ^ 16 - (65536 - n)) % 2 ^ 16 ≡ n = omega arith in
      ap (λ m. get_num_arg (ltob_signed m ++ rest)) long
      ∙ ap (λ t. get_num_arg (t ++ rest)) (signed_minus (n + 4294901760) wide)
      ∙ ap (λ m. get_num_arg (b'-' ∷ (ltob_unsigned m 10 ++ rest))) size
      ∙ get_num_arg-minus (65536 - n) rest (omega arith) ends
      ∙ ap (λ m. some (m, rest)) back
  | inr plus ↦
      let half : n < 32768 = ground arith in
      let same : extended true n ≡ n = rw plus refl in
      let narrow : ltb n (2 ^ 31) ≡ true = ground arith in
      ap (λ m. get_num_arg (ltob_signed m ++ rest)) same
      ∙ ap (λ t. get_num_arg (t ++ rest)) (signed_plain n narrow)
      ∙ get_num_arg-unsigned n rest short ends
]
