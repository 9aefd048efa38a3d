-- ===== src/Config/Numbers.antt =====
-- kernel/config.c: `GetNumArg`, on the `int` of 16 bits.
use fdkernel.Common.{
  ℕ, ◌+◌, ◌-◌, ◌*◌, ◌%◌, ◌^◌, ◌&&◌, List, [], ◌∷◌, leb, ◌==◌, if◌then◌else◌, Option, none, some,
}
use fdkernel.Config.Words.{isnum, toupper, skipwh}

-- Where the character stands in "0123456789ABCDEF".
abbrev pub digit_index : ℕ → Option ℕ
digit_index c =
    if isnum c
    then some (c - b'0')
    else (if leb b'A' c && leb c b'F' then some (c - b'A' + 10) else none)

-- The loop: the number, and the rest of the string.
unfoldable pub get_digits : ℕ → ℕ → List ℕ → ℕ × List ℕ
get_digits base n [] = (n, [])
get_digits base n (c ∷ s) =
    if toupper c == b'X' then get_digits 16 n s else elim (digit_index (toupper c)) [
      | none ↦ (n, c ∷ s)
      | some v ↦ get_digits base ((n * base + v) % 2 ^ 16) s
    ]

abbrev pub negative : ℕ × List ℕ → ℕ × List ℕ
negative (n, rest) = ((2 ^ 16 - n) % 2 ^ 16, rest)

-- None is NULL, after a message.
abbrev pub get_signed : List ℕ → Option (ℕ × List ℕ)
get_signed [] = none
get_signed (c ∷ s) =
    if c == b'-'
    then some (negative (get_digits 10 0 s))
    else (if isnum c then some (get_digits 10 0 (c ∷ s)) else none)

unfoldable pub get_num_arg : List ℕ → Option (ℕ × List ℕ)
get_num_arg p = get_signed (skipwh p)
