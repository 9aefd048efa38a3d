-- ===== src/Printf/Format.antt =====
-- kernel/prf.c: `do_printf`.
use fdkernel.Common.{
  ℕ, zero, suc, ◌+◌, ◌-◌, ◌*◌, ◌%◌, ◌^◌, Bool, true, false, not, ◌&&◌, ◌||◌, List, [], ◌∷◌, ◌++◌,
  ltb, leb, ◌==◌, if◌then◌else◌, replicate, length, Option, none, some,
}
use fdkernel.Printf.Numbers.{ltob_unsigned, ltob_signed}

-- The arguments: an `int`, a `long` and the text at a pointer. An argument of another kind than
-- the format asks for is not modelled.
pub data Arg : Type 0 where
  int_arg : ℕ → Arg
  long_arg : ℕ → Arg
  text_arg : List ℕ → Arg

-- What stands between a percent sign and the letter.
pub record Spec : Type 0 where
  pub right : Bool
  pub zeros_fill : Bool
  pub size : ℕ
  pub long : Bool

-- Whether the string starts with `c`, and what follows it then.
abbrev pub starts : ℕ → List ℕ → Bool
starts c [] = false
starts c (x ∷ s) = x == c

abbrev pub tail : List ℕ → List ℕ
tail [] = []
tail (x ∷ s) = s

abbrev pub skip : ℕ → List ℕ → List ℕ
skip c s = if starts c s then tail s else s

abbrev pub is_digit : ℕ → Bool
is_digit c = leb b'0' c && leb c b'9'

-- `size` is an `int`.
unfoldable pub read_size : ℕ → List ℕ → ℕ × List ℕ
read_size size [] = (size, [])
read_size size (c ∷ s) =
    if is_digit c then read_size ((size * 10 + (c - b'0')) % 2 ^ 16) s else (size, c ∷ s)

unfoldable pub read_spec : List ℕ → Spec × List ℕ
read_spec s0 =
    let s1 = skip b'-' s0 in
    let s2 = skip b'0' s1 in
    let (size, s3) = read_size 0 s2 in
    (
      record {
        right = not (starts b'-' s0);
        zeros_fill = starts b'0' s1;
        size = size;
        long = starts b'l' s3;
      },
      skip b'l' s3,
    )

-- How often the fill character is written: `size` less the length, if that is positive.
abbrev pub fill_count : ℕ → ℕ → ℕ
fill_count size len =
    let left = (size + 2 ^ 16 - len % 2 ^ 16) % 2 ^ 16 in if ltb left (2 ^ 15) then left else 0

unfoldable pub put_field : Spec → List ℕ → List ℕ
put_field spec p =
    let n = fill_count spec.size (length p) in
    if spec.right
    then replicate n (if spec.zeros_fill then b'0' else b' ') ++ p
    else p ++ replicate n b' '

-- The number that an argument of a number's kind holds, of 32 bits.
abbrev pub extended : Bool → ℕ → ℕ
extended signed n = if signed && leb (2 ^ 15) n then n + 4294901760 else n

abbrev pub number : Bool → Bool → List Arg → Option (ℕ × List Arg)
number long signed [] = none
number long signed (Arg.int_arg n ∷ args) = if long then none else some (extended signed n, args)
number long signed (Arg.long_arg n ∷ args) = if long then some (n, args) else none
number long signed (Arg.text_arg p ∷ args) = none

-- The text of a number.
abbrev pub ltob : ℕ → ℕ → List ℕ
ltob c n =
    if c == b'd' || c == b'i'
    then ltob_signed n
    else ltob_unsigned n (if c == b'o' then 8 else (if c == b'u' then 10 else 16))

-- One conversion: what is written, and the arguments that are left. None is a kind that does not fit.
abbrev pub Converted : Type 0
Converted = Option (List ℕ × List Arg)

abbrev pub put_number : Spec → ℕ → Option (ℕ × List Arg) → Converted
put_number spec c none = none
put_number spec c (some (n, args)) = some (put_field spec (ltob c n), args)

abbrev pub put_char : List Arg → Converted
put_char (Arg.int_arg n ∷ args) = some (n % 2 ^ 8 ∷ [], args)
put_char args = none

abbrev pub put_text : Spec → List Arg → Converted
put_text spec (Arg.text_arg p ∷ args) = some (put_field spec p, args)
put_text spec args = none

-- The flags of %0<size>.
abbrev pub zero_filled : ℕ → Spec
zero_filled size = record { right = true; zeros_fill = true; size = size; long = false }

abbrev pub four_hex : ℕ → List ℕ
four_hex n = put_field (zero_filled 4) (ltob_unsigned n 16)

-- A pointer: the offset is the first argument, and is written behind the segment.
abbrev pub put_pointer : Spec → List Arg → Converted
put_pointer spec (Arg.int_arg w0 ∷ Arg.int_arg w1 ∷ args) =
    some (put_field spec (four_hex w1 ++ b':' ∷ four_hex w0), args)
put_pointer spec args = none

abbrev pub is_number : ℕ → Bool
is_number c = c == b'd' || c == b'i' || c == b'o' || c == b'u' || c == b'x' || c == b'X'

unfoldable pub convert : Spec → ℕ → List Arg → Converted
convert spec c args =
    if c == b'c'
    then put_char args
    else (if c == b'p'
        then put_pointer spec args
        else (if c == b's' || c == b'S' || c == b'F'
            then put_text spec args
            else (if is_number c
                then put_number spec c (number spec.long (c == b'd' || c == b'i') args)
                else some (if c == b'%' then b'%' ∷ [] else b'?' ∷ c ∷ [], args))))

-- What a run comes to: the text, or an argument that does not fit its letter, or the fuel ran out.
pub data Output : Type 0 where
  printed : List ℕ → Output
  mismatched : Output
  unfinished : Output

abbrev pub put_before : List ℕ → Output → Output
put_before out (Output.printed rest) = Output.printed (out ++ rest)
put_before out Output.mismatched = Output.mismatched
put_before out Output.unfinished = Output.unfinished

abbrev pub converted : (List Arg → Output) → Converted → Output
converted go none = Output.mismatched
converted go (some (out, args)) = put_before out (go args)

-- At a letter; `F` takes one more character with it.
abbrev pub at_letter : (List ℕ → List Arg → Output) → List Arg → Spec × List ℕ → Output
at_letter go args (spec, []) = Output.printed []
at_letter go args (spec, c ∷ s) =
    converted (go (if c == b'F' then tail s else s)) (convert spec c args)

unfoldable pub do_printf : ℕ → List ℕ → List Arg → Output
do_printf zero fmt args = Output.unfinished
do_printf (suc fuel) [] args = Output.printed []
do_printf (suc fuel) (c ∷ s) args =
    let go : List ℕ → List Arg → Output = do_printf fuel in
    if c == b'%' then at_letter go args (read_spec s) else put_before (c ∷ []) (go s args)
