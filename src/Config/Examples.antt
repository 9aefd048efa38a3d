-- ===== src/Config/Examples.antt =====
-- Lines of the configuration file through kernel/config.c.
use fdkernel.Common.{◌≡◌, refl, true, false, [], ◌∷◌, ◌++◌, some, arith}
use fdkernel.Printf.Numbers.{ltob_signed}
use fdkernel.Printf.Format.{extended}
use fdkernel.Config.Words.{
  scan, scan_silent, scan_semicolon, scan_word, menu_digits, skipwh, look_up, strcaseequal,
}
use fdkernel.Config.Numbers.{get_num_arg, get_digits}
use fdkernel.Config.Settings.{Config, files, fcbs}
use fdkernel.Config.RoundTrip.{get_num_arg-ltob_signed}

-- "12?!files=4".
asked : scan (b'1' ∷ b'2' ∷ b'?' ∷ b'!' ∷ b'f' ∷ b'i' ∷ b'=' ∷ b'4' ∷ []) ≡ record {
  rest = b'=' ∷ b'4' ∷ [];
  word = b'f' ∷ b'i' ∷ [];
  menu_line = 1 ∷ 2 ∷ [];
  ask = false;
  dont_ask = true;
}
unfolding scan scan_silent scan_semicolon scan_word menu_digits skipwh
asked = refl

-- The digits at the start of "4DOS.COM" are lost.
lost_digit : (scan (b'4' ∷ b'D' ∷ b'O' ∷ b'S' ∷ [])).word ≡ b'D' ∷ b'O' ∷ b'S' ∷ []
unfolding scan scan_silent scan_semicolon scan_word menu_digits skipwh
lost_digit = refl

-- "20a" is read in base 10 with a digit of ten.
letter_digit : get_num_arg (b'2' ∷ b'0' ∷ b'a' ∷ []) ≡ some (210, [])
unfolding get_num_arg get_digits skipwh
letter_digit = refl

-- " 0x1F,".
hex_lem : get_num_arg (32 ∷ b'0' ∷ b'x' ∷ b'1' ∷ b'F' ∷ b',' ∷ []) ≡ some (31, b',' ∷ [])
unfolding get_num_arg get_digits skipwh
hex_lem = refl

abbrev standard : Config
standard = record {
  cfg_files = 16;
  cfg_files_high = 0;
  cfg_fcbs = 16;
  cfg_prot_fcbs = 0;
  cfg_lastdrive = 5;
  cfg_lastdrive_high = 0;
}

-- FILES=256 leaves room for no files.
no_files : (files (b'2' ∷ b'5' ∷ b'6' ∷ []) standard).cfg_files ≡ 0
unfolding files get_num_arg get_digits skipwh
no_files = refl

-- FCBS=4,9 protects no more than there are.
limited : (fcbs (b'4' ∷ b',' ∷ b'9' ∷ []) standard).cfg_prot_fcbs ≡ 4
unfolding fcbs get_num_arg get_digits skipwh
limited = refl

-- The second name of the table, in other case.
second_name : look_up ((b'A' ∷ []) ∷ (b'B' ∷ b'c' ∷ []) ∷ []) (b'b' ∷ b'C' ∷ []) ≡ 1
unfolding look_up strcaseequal
second_name = refl

get_num_arg-ltob_signed_example :
    get_num_arg (ltob_signed (extended true 65524) ++ b',' ∷ b'7' ∷ [])
    ≡ some (65524, b',' ∷ b'7' ∷ [])
get_num_arg-ltob_signed_example =
    get_num_arg-ltob_signed 65524 (b',' ∷ b'7' ∷ []) (omega arith) refl
