-- ===== src/Fcb/Parse.antt =====
-- kernel/fcbfns.c: `FcbParseFname` and what it calls.
use fdkernel.Common.{
  ℕ, ◌+◌, ◌-◌, ◌*◌, ◌/◌, ◌%◌, ◌^◌, Bool, true, false, ◌||◌, List, [], ◌∷◌, ◌++◌, leb, ◌==◌,
  if◌then◌else◌, replicate, set, Option, none, some,
}
use fdkernel.Fcb.Dbcs.{Nls, lead_byte, is_double}
use fdkernel.Fcb.Name83.{space, fname_size, fext_size, convert_name83_to_name_sz}

-- The fields that name the file, and those that say where in the file the program is.
pub record Fcb : Type 0 where
  pub fcb_drive : ℕ
  pub fcb_fname : List ℕ
  pub fcb_fext : List ℕ
  pub fcb_cublock : ℕ
  pub fcb_recsiz : ℕ
  pub fcb_fsize : ℕ
  pub fcb_curec : ℕ
  pub fcb_rndm : ℕ

abbrev pub among : List ℕ → ℕ → Bool
among [] c = false
among (x ∷ xs) c = c == x || among xs c

unfoldable pub test_cmn_seps : ℕ → Bool
test_cmn_seps c = among (b':' ∷ b';' ∷ b',' ∷ b'=' ∷ b'+' ∷ b' ' ∷ 9 ∷ []) c

-- / \ " [ ] < > | . : ; , = + and a tab.
unfoldable pub test_field_seps : ℕ → Bool
test_field_seps c =
    leb c 32
    || among (47 ∷ 92 ∷ 34 ∷ 91 ∷ 93 ∷ 60 ∷ 62 ∷ 124 ∷ 46 ∷ 58 ∷ 59 ∷ 44 ∷ 61 ∷ 43 ∷ 9 ∷ []) c

unfoldable pub skip_cmn_seps : List ℕ → List ℕ
skip_cmn_seps [] = []
skip_cmn_seps (c ∷ s) = if test_cmn_seps c then skip_cmn_seps s else c ∷ s

unfoldable pub parse_skip_wh : List ℕ → List ℕ
parse_skip_wh [] = []
parse_skip_wh (c ∷ s) = if c == 32 || c == 9 then parse_skip_wh s else c ∷ s

-- What `GetNameField` leaves: the rest of the string, the bytes of the field, whether it set the
-- wildcard flag, and the byte that it wrote behind the field, if it did.
pub record NameField : Type 0 where
  pub rest : List ℕ
  pub field : List ℕ
  pub wild : Bool
  pub spill : Option ℕ

abbrev pub prepend : List ℕ → Bool → NameField → NameField
prepend bytes w f = record f { field = bytes ++ f.field; wild = w || f.wild }

abbrev pub end_field : List ℕ → ℕ → ℕ → Bool → NameField
end_field s room fill w = record { rest = s; field = replicate room fill; wild = w; spill = none }

-- The code copies the byte behind a single one too, which falls behind the field where one place
-- is left.
abbrev pub copy_next : ℕ → ℕ → NameField → NameField
copy_next room y f = if room == 1 then record f { spill = some y } else f

-- `room` is `nFieldSize - nIndex`. A character of two bytes that does not fit is cut.
unfoldable pub get_name_field : Nls → ℕ → List ℕ → NameField
get_name_field nls room [] = end_field [] room space false
get_name_field nls room (c ∷ []) =
    if test_field_seps c || room == 0
    then end_field (c ∷ []) room space false
    else (if c == b'*'
        then end_field [] room b'?' true
        else copy_next room 0
            (prepend (nls.up_mem (c ∷ [])) (c == b'?') (end_field [] (room - 1) space false)))
get_name_field nls room (c ∷ y ∷ s) =
    let cut = prepend (nls.up_mem (c ∷ [])) (c == b'?') (get_name_field nls (room - 1) (y ∷ s)) in
    let double = prepend (nls.up_mem (c ∷ y ∷ [])) (c == b'?') (get_name_field nls (room - 2) s) in
    if test_field_seps c || room == 0
    then end_field (c ∷ y ∷ s) room space false
    else (if c == b'*'
        then end_field (y ∷ s) room b'?' true
        else (if is_double nls c y
            then (if leb 2 room then double else cut)
            else copy_next room y cut))

abbrev pub parse_ret_nowild : ℕ
parse_ret_nowild = 0

abbrev pub parse_ret_wild : ℕ
parse_ret_wild = 1

abbrev pub parse_ret_baddrive : ℕ
parse_ret_baddrive = 255

-- `*wTestMode` afterwards, the rest of the string, and the FCB.
pub record Parsed : Type 0 where
  pub test_mode : ℕ
  pub rest : List ℕ
  pub fcb : Fcb

abbrev pub bit : ℕ → ℕ → Bool
bit mode k = mode / 2 ^ k % 2 == 1

-- Two blocks of the code: the numbers are reset, and the name and the extension are blanked.
abbrev pub blanked : ℕ → Fcb → Fcb
blanked mode f = record f {
  fcb_cublock = 0;
  fcb_recsiz = 0;
  fcb_fname = if bit mode 2 then f.fcb_fname else replicate fname_size space;
  fcb_fext = if bit mode 3 then f.fcb_fext else replicate fext_size space;
}

-- "." and "..".
abbrev pub parse_dots : List ℕ → Fcb → Parsed
parse_dots [] f = record {
  test_mode = parse_ret_nowild;
  rest = [];
  fcb = record f { fcb_fname = set f.fcb_fname 0 b'.' };
}
parse_dots (c ∷ s) f = record {
  test_mode = parse_ret_nowild;
  rest = if c == b'.' then s else c ∷ s;
  fcb = record f {
    fcb_fname = if c == b'.' then set (set f.fcb_fname 0 b'.') 1 b'.' else set f.fcb_fname 0 b'.';
  };
}

abbrev pub return_wild : Bool → ℕ
return_wild w = if w then parse_ret_wild else parse_ret_nowild

-- The byte behind `fcb_fname` is the first one of `fcb_fext`, and the byte behind that the low one of
-- `fcb_cublock`.
abbrev pub spill_name : Option ℕ → Fcb → Fcb
spill_name none f = f
spill_name (some y) f = record f { fcb_fext = set f.fcb_fext 0 y }

abbrev pub spill_ext : Option ℕ → Fcb → Fcb
spill_ext none f = f
spill_ext (some y) f = record f { fcb_cublock = f.fcb_cublock / 2 ^ 8 * 2 ^ 8 + y % 2 ^ 8 }

-- The extension, if there is one.
unfoldable pub parse_ext : Nls → Bool → List ℕ → Fcb → Parsed
parse_ext nls w [] f = record { test_mode = return_wild w; rest = []; fcb = f }
parse_ext nls w (c ∷ s) f =
    let ext = get_name_field nls fext_size s in
    if c == b'.'
    then record {
      test_mode = return_wild (w || ext.wild);
      rest = ext.rest;
      fcb = spill_ext ext.spill (record f { fcb_fext = ext.field });
    }
    else record { test_mode = return_wild w; rest = c ∷ s; fcb = f }

unfoldable pub parse_plain : Nls → List ℕ → Fcb → Parsed
parse_plain nls s f =
    let name = get_name_field nls fname_size s in
    parse_ext nls name.wild name.rest (spill_name name.spill (record f { fcb_fname = name.field }))

abbrev pub parse_name : Nls → List ℕ → Fcb → Parsed
parse_name nls [] f = parse_plain nls [] f
parse_name nls (c ∷ s) f = if c == b'.' then parse_dots s f else parse_plain nls (c ∷ s) f

-- `get_cds` is asked for the drive, by the number that the letter gives.
abbrev pub drive_number : Nls → ℕ → ℕ
drive_number nls c = (lead_byte (nls.up_mem (c ∷ [])) + 191) % 2 ^ 8

abbrev pub default_drive : ℕ → Fcb → Fcb
default_drive mode f = if bit mode 1 then f else record f { fcb_drive = 0 }

unfoldable pub parse_drive : Nls → (ℕ → Bool) → ℕ → List ℕ → Fcb → Parsed
parse_drive nls has_cds mode [] f = parse_name nls [] (blanked mode (default_drive mode f))
parse_drive nls has_cds mode (c ∷ []) f =
    parse_name nls (c ∷ []) (blanked mode (default_drive mode f))
parse_drive nls has_cds mode (c ∷ d ∷ s) f =
    if d == b':'
    then (if has_cds (drive_number nls c)
        then parse_name nls s
            (blanked mode (record f { fcb_drive = (drive_number nls c + 1) % 2 ^ 8 }))
        else record { test_mode = parse_ret_baddrive; rest = c ∷ d ∷ s; fcb = f })
    else parse_name nls (c ∷ d ∷ s) (blanked mode (default_drive mode f))

unfoldable pub fcb_parse_fname : Nls → (ℕ → Bool) → ℕ → List ℕ → Fcb → Parsed
fcb_parse_fname nls has_cds mode s f =
    let from = if bit mode 0 then skip_cmn_seps s else s in
    parse_drive nls has_cds mode (parse_skip_wh from) f

-- `szBuffer`; the drive is left out where it is the default one.
unfoldable pub fcb_name_init : Fcb → List ℕ
fcb_name_init f =
    let name = convert_name83_to_name_sz f.fcb_fname f.fcb_fext in
    if f.fcb_drive == 0 then name else ((64 + f.fcb_drive) % 2 ^ 8) ∷ b':' ∷ name
