-- ===== src/Printf/Scan.antt =====
-- kernel/prf.c: `do_printf` looks at each character of the format once.
use mathlib.Core.List.{append_assoc}
use fdkernel.Common.{
  Bool, true, false, ℕ, ◌^◌, ◌≤◌, ◌<◌, ◌≡◌, List, [], ◌∷◌, ◌++◌, length, length-append, arith, ap,
}
use fdkernel.Printf.Laws.{put_field-ltob_unsigned, digits_at_most}
use fdkernel.Printf.Format.{
  Arg, Output, read_size, read_spec, four_hex, put_field, convert, do_printf, fill_count,
}

-- The fuel did not run out.
abbrev pub is_ended : Output → Bool
is_ended (Output.printed text) = true
is_ended Output.mismatched = true
is_ended Output.unfinished = false

no_fill : (len : ℕ) → len < 2 ^ 15 → fill_count 0 len ≡ 0
no_fill len short = ground arith

four_hex_short : (w : ℕ) → w < 2 ^ 16 → length (four_hex w) ≤ 32
four_hex_short w below =
    let places =
      (put_field-ltob_unsigned w 16 4 (omega arith) (omega arith) (omega arith) (omega arith)).1 in
    ground (arith, digits_at_most w 16 (omega arith) (omega arith))

pointer_short :
    (w0 w1 : ℕ)
    → w0 < 2 ^ 16
    → w1 < 2 ^ 16
    → fill_count 0 (length (four_hex w1 ++ b':' ∷ four_hex w0)) ≡ 0
pointer_short w0 w1 short short1 = no_fill (length (four_hex w1 ++ b':' ∷ four_hex w0)) (
    omega (
      arith,
      length-append (four_hex w1) (b':' ∷ four_hex w0),
      four_hex_short w0 short,
      four_hex_short w1 short1,
    ))

-- The format "%04x:%04x", with which a pointer is written.
abbrev pub pointer_format : List ℕ
pointer_format = b'%' ∷ b'0' ∷ b'4' ∷ b'x' ∷ b':' ∷ b'%' ∷ b'0' ∷ b'4' ∷ b'x' ∷ []

-- What %p writes of two numbers of 16 bits is what the format "%04x:%04x" writes of them in the
-- other order.
pub do_printf-pointer_format :
    (w0 w1 : ℕ)
    → w0 < 2 ^ 16
    → w1 < 2 ^ 16
    → do_printf 10 (b'%' ∷ b'p' ∷ []) (Arg.int_arg w0 ∷ Arg.int_arg w1 ∷ [])
      ≡ do_printf 10 pointer_format (Arg.int_arg w1 ∷ Arg.int_arg w0 ∷ [])
unfolding do_printf read_spec read_size convert put_field
do_printf-pointer_format w0 w1 short short1 =
    rw (pointer_short w0 w1 short short1)
      (ap Output.printed (append_assoc (four_hex w1) (b':' ∷ four_hex w0) []))
