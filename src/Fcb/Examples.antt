-- ===== src/Fcb/Examples.antt =====
-- Names and records through kernel/fcbfns.c.
use fdkernel.Common.{
  ℕ, ◌+◌, ◌-◌, ◌*◌, ◌/◌, ◌≡◌, inr, refl, true, false, ◌&&◌, List, [], ◌∷◌, Option, none, some,
  arith, leb, ltb, if◌then◌else◌, map, pos, negsuc,
}
use fdkernel.Fcb.Dbcs.{Nls, is_double, dbcs_is_in_tbl}
use fdkernel.Fcb.Parse.{
  Fcb, Parsed, fcb_parse_fname, fcb_name_init, parse_drive, parse_skip_wh, parse_plain, parse_ext,
  get_name_field, test_field_seps, return_wild,
}
use fdkernel.Fcb.Records.{
  Mode, Answers, TransferEnd, fcb_random_block_io, fcb_read_write, after_transfer, update_fcb,
  fcb_rec, fcb_next_record,
}
use fdkernel.Fcb.RoundTrip.{IsNamed, named_as, fcb_parse_fname-fcb_name_init}
use fdkernel.Fcb.Transfer.{Finished, fcb_random_block_io_lem}

abbrev upcase : ℕ → ℕ
upcase c = if leb 97 c && leb c 122 then c - 32 else c

-- The lead bytes of code page 932.
abbrev japan : Nls
japan = record { dbcs_tbl = (129, 159) ∷ (224, 252) ∷ (0, 0) ∷ []; up_mem = map upcase }

abbrev blank_fcb : Fcb
blank_fcb = record {
  fcb_drive = 0;
  fcb_fname = [];
  fcb_fext = [];
  fcb_cublock = 7;
  fcb_recsiz = 128;
  fcb_fsize = 0;
  fcb_curec = 1;
  fcb_rndm = 300;
}

-- B:RUN.C, with its fields filled.
abbrev run_c : Fcb
run_c = record blank_fcb {
  fcb_drive = 2;
  fcb_fname = 82 ∷ 85 ∷ 78 ∷ 32 ∷ 32 ∷ 32 ∷ 32 ∷ 32 ∷ [];
  fcb_fext = 67 ∷ 32 ∷ 32 ∷ [];
}

run_c-IsNamed : IsNamed japan (82 ∷ 85 ∷ 78 ∷ []) (67 ∷ []) run_c
unfolding test_field_seps
run_c-IsNamed = record {
  base_plain = (
    (omega arith, omega arith, refl, refl),
    ((omega arith, omega arith, refl, refl), ((omega arith, omega arith, refl, refl), tt)),
  );
  ext_plain = ((omega arith, omega arith, refl, refl), tt);
  some_base = λ e. cc;
  base_fits = omega arith;
  ext_fits = omega arith;
  fname_is = refl;
  fext_is = refl;
}

fcb_parse_fname-fcb_name_init_example :
    fcb_parse_fname japan (λ d. ltb d 3) 0 (fcb_name_init run_c) blank_fcb ≡ record {
      test_mode = return_wild false;
      rest = [];
      fcb = named_as 2 japan (82 ∷ 85 ∷ 78 ∷ []) (67 ∷ []) blank_fcb;
    }
fcb_parse_fname-fcb_name_init_example =
    fcb_parse_fname-fcb_name_init japan (λ d. ltb d 3) (82 ∷ 85 ∷ 78 ∷ []) (67 ∷ []) run_c blank_fcb
      run_c-IsNamed (omega arith) (inr (refl, refl))

abbrev read_block : Mode
read_block = record { is_read = true; fcb_random = true }

-- The file ends 300 bytes behind the place that is asked for.
abbrev near_end : Answers
near_end = record {
  dta = 128;
  seek_result = λ place. pos 0;
  transferred = λ place size. pos 300;
  new_size = 0;
}

fcb_random_block_io_lem_example :
    (d : TransferEnd) × (fcb_random_block_io read_block near_end 4 run_c
      ≡ some ((300 + 128 - 1) / 128, d))
    × (fcb_rec d.fcb ≡ 300 + (300 + 128 - 1) / 128)
    × Finished read_block 128 128 300 (128 * 4) (300 + (300 + 128 - 1) / 128) d
fcb_random_block_io_lem_example =
    fcb_random_block_io_lem read_block near_end 4 300 run_c refl (omega arith) refl refl
      (omega arith) (omega arith) (omega arith) (omega arith)

abbrev fields : Parsed → List ℕ × List ℕ × ℕ × ℕ
fields p = (p.fcb.fcb_fname, p.fcb.fcb_fext, p.fcb.fcb_cublock, p.test_mode)

-- "a*.c": the star fills the name.
star_lem :
    fields (fcb_parse_fname japan (λ d. true) 0 (97 ∷ 42 ∷ 46 ∷ 99 ∷ []) blank_fcb)
    ≡ (65 ∷ 63 ∷ 63 ∷ 63 ∷ 63 ∷ 63 ∷ 63 ∷ 63 ∷ [], 67 ∷ 32 ∷ 32 ∷ [], 0, 1)
unfolding fcb_parse_fname parse_skip_wh parse_drive parse_plain parse_ext get_name_field
    test_field_seps is_double dbcs_is_in_tbl
star_lem = refl

-- "abc.txt d": the blank behind the extension ends in the current block.
spilt_block :
    fields (
      fcb_parse_fname japan
        (λ d. true)
        0
        (97 ∷ 98 ∷ 99 ∷ 46 ∷ 116 ∷ 120 ∷ 116 ∷ 32 ∷ 100 ∷ [])
        blank_fcb)
    ≡ (65 ∷ 66 ∷ 67 ∷ 32 ∷ 32 ∷ 32 ∷ 32 ∷ 32 ∷ [], 84 ∷ 88 ∷ 84 ∷ [], 32, 0)
unfolding fcb_parse_fname parse_skip_wh parse_drive parse_plain parse_ext get_name_field
    test_field_seps is_double dbcs_is_in_tbl
spilt_block = refl

-- A character of two bytes at the end of the name is cut.
cut_character : (get_name_field japan 2 (65 ∷ 130 ∷ 160 ∷ [])).field ≡ 65 ∷ 130 ∷ []
unfolding get_name_field test_field_seps is_double dbcs_is_in_tbl
cut_character = refl

abbrev code_of : Option TransferEnd → Option (ℕ × Option (ℕ × ℕ))
code_of none = none
code_of (some d) = some (d.code, d.zeroed)

-- A read that fails is taken for one of 65531 bytes: what lies before the buffer is zeroed.
failed_read :
    code_of
      (fcb_read_write read_block (record near_end { transferred = λ place size. negsuc 4 }) 1 run_c)
    ≡ some (3, some (123, 5))
unfolding fcb_read_write after_transfer update_fcb fcb_next_record fcb_rec
failed_read = refl

-- A record of 40000 bytes is read and not counted.
uncounted :
    code_of (
      fcb_read_write read_block
        (record near_end { transferred = λ place size. pos size })
        1
        (record run_c { fcb_recsiz = 40000 }))
    ≡ some (0, none)
unfolding fcb_read_write after_transfer update_fcb fcb_next_record fcb_rec
uncounted = refl

abbrev random_of : Option TransferEnd → ℕ
random_of none = 0
random_of (some d) = d.fcb.fcb_rndm

uncounted_record :
    random_of (
      fcb_read_write read_block
        (record near_end { transferred = λ place size. pos size })
        1
        (record run_c { fcb_recsiz = 40000 }))
    ≡ 300
unfolding fcb_read_write after_transfer update_fcb fcb_next_record fcb_rec
uncounted_record = refl
