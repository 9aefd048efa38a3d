-- ===== src/Printf/Examples.antt =====
-- Runs of kernel/prf.c on small formats and numbers.
use fdkernel.Common.{ℕ, ◌^◌, ◌≤◌, ◌≡◌, refl, List, [], ◌∷◌, length, arith, if◌then◌else◌, ltb}
use fdkernel.Printf.Numbers.{ltob_unsigned, ltob_signed, digits}
use fdkernel.Printf.Format.{
  Arg, Output, do_printf, read_spec, read_size, convert, put_field, zero_filled,
}
use fdkernel.Printf.Digits.{read_number}
use fdkernel.Printf.Laws.{read_signed, ltob_signed_lem, put_field-ltob_unsigned}

-- The lowest number takes eleven characters, and so twelve bytes with the zero behind them.
eleven_characters : length (ltob_signed (2 ^ 31)) ≡ 11
unfolding ltob_signed ltob_unsigned digits
eleven_characters = refl

-- "%5d|%-3s|%04x%%%q" of -12, "ab" and 0x2f.
abbrev sample : List ℕ
sample =
    b'%' ∷ b'5' ∷ b'd' ∷ b'|' ∷ b'%' ∷ b'-' ∷ b'3' ∷ b's' ∷ b'|' ∷ b'%' ∷ b'0' ∷ b'4' ∷ b'x' ∷ b'%'
    ∷ b'%' ∷ b'%' ∷ b'q' ∷ []

abbrev sample_args : List Arg
sample_args = Arg.int_arg 65524 ∷ Arg.text_arg (b'a' ∷ b'b' ∷ []) ∷ Arg.int_arg 47 ∷ []

sample_printed :
    do_printf 20 sample sample_args
    ≡ Output.printed (
        b' ' ∷ b' ' ∷ b'-' ∷ b'1' ∷ b'2' ∷ b'|' ∷ b'a' ∷ b'b' ∷ b' ' ∷ b'|' ∷ b'0' ∷ b'0' ∷ b'2'
        ∷ b'f' ∷ b'%' ∷ b'?' ∷ b'q' ∷ [])
unfolding do_printf read_spec read_size convert put_field ltob_signed ltob_unsigned digits
sample_printed = refl

ltob_signed_lem_example :
    read_signed (ltob_signed 4294967284) ≡ 4294967284 × length (ltob_signed 4294967284) ≤ 11
ltob_signed_lem_example = ltob_signed_lem 4294967284 (omega arith)

put_field-ltob_unsigned_example :
    read_number 16 (put_field (zero_filled 4) (ltob_unsigned 47 16)) ≡ 47
    × length (put_field (zero_filled 4) (ltob_unsigned 47 16))
      ≡ (if ltb (length (ltob_unsigned 47 16)) 4 then 4 else length (ltob_unsigned 47 16))
put_field-ltob_unsigned_example =
    put_field-ltob_unsigned 47 16 4 (omega arith) (omega arith) (omega arith) (omega arith)
