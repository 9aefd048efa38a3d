-- ===== src/Fcb/RoundTrip.antt =====
-- `FcbNameInit` of kernel/fcbfns.c writes the name of an FCB, and `FcbParseFname` reads it.
use mathlib.Core.List.{append-nil}
use fdkernel.Common.{
  ℕ, ◌+◌, ◌-◌, ◌*◌, ◌/◌, ◌%◌, ◌^◌, ◌≤◌, ◌≡◌, ◌≢◌, ◌⊎◌, inl, inr, refl, Bool, true, false, ◌||◌,
  List, [], ◌∷◌, ◌++◌, ◌==◌, if◌then◌else◌, replicate, set, length, All, Option, none, some, arith,
  ap, ap₂, sym, ◌∙◌, Bool-cases, ℕ_discrete,
}
use fdkernel.Fcb.Dbcs.{Nls, lead_byte}
use fdkernel.Fcb.Name83.{space, with_dot, convert_name83_to_name_sz}
use fdkernel.Fcb.Parse.{
  Fcb, Parsed, NameField, get_name_field, test_field_seps, spill_name, spill_ext, parse_ext,
  parse_plain, parse_name, parse_drive, parse_skip_wh, fcb_parse_fname, fcb_name_init, blanked,
  return_wild,
}
use fdkernel.Fcb.Fields.{
  IsPlain, has_wild, pad, Stops, spilt, read_field, get_name_field-plain, trimmed-pad,
}

-- The name and the extension of an FCB in their fields.
pub record IsNamed (nls : Nls) (base ext : List ℕ) (f : Fcb) : Type 0 where
  pub base_plain : All (IsPlain nls) base
  pub ext_plain : All (IsPlain nls) ext
  pub some_base : base ≢ []
  pub base_fits : length base ≤ 8
  pub ext_fits : length ext ≤ 3
  pub fname_is : f.fcb_fname ≡ pad 8 base
  pub fext_is : f.fcb_fext ≡ pad 3 ext

with_dot-Stops : (ext : List ℕ) → Stops (with_dot ext)
unfolding test_field_seps
with_dot-Stops [] = tt
with_dot-Stops (c ∷ s) = refl

plain_not : (nls : Nls) (c : ℕ) → IsPlain nls c → (c ≢ 32) × (c ≢ 9) × (c ≢ b'.') × (c ≢ b':')
unfolding test_field_seps
plain_not nls c (_, _, fine, _) = ground arith

convert_lem :
    (nls : Nls) (base ext : List ℕ)
    → All (IsPlain nls) base
    → All (IsPlain nls) ext
    → base ≢ []
    → convert_name83_to_name_sz (pad 8 base) (pad 3 ext) ≡ base ++ with_dot ext
unfolding convert_name83_to_name_sz
convert_lem nls [] ext base_plain ext_plain some_base = absurd (some_base refl)
convert_lem nls (c ∷ s) ext base_plain ext_plain some_base =
    let (_, _, dot, _) = plain_not nls c base_plain.0 in
    let test : (c == b'.') ≡ false = ground arith in
    rw test (
      ap₂ (λ a b. a ++ with_dot b) (trimmed-pad nls 8 (c ∷ s) base_plain)
        (trimmed-pad nls 3 ext ext_plain))

-- What the code makes of the extension: a name of eight bytes with no extension leaves the zero at
-- the end of the string in its first byte.
abbrev pub ext_read : List ℕ → List ℕ → List ℕ
ext_read base [] = if length base == 8 then 0 ∷ space ∷ space ∷ [] else replicate 3 space
ext_read base (c ∷ s) = pad 3 (c ∷ s)

spill_name-over :
    (o : Option ℕ) (f : Fcb) (e : List ℕ)
    → record (spill_name o f) { fcb_fext = e } ≡ record f { fcb_fext = e }
spill_name-over none f e = refl
spill_name-over (some y) f e = refl

spill_ext-end : (ext : List ℕ) (f : Fcb) → f.fcb_cublock ≡ 0 → spill_ext (spilt 3 ext []) f ≡ f
spill_ext-end [] f zero_block = refl
spill_ext-end (c ∷ s) f zero_block = elim (Bool-cases (length (c ∷ s) == 3)) [
  | inl full ↦
      let low : f.fcb_cublock / 2 ^ 8 * 2 ^ 8 + 0 % 2 ^ 8 ≡ f.fcb_cublock = omega arith in
      rw full (ap (λ n. record f { fcb_cublock = n }) low)
  | inr more ↦ rw more refl
]

module _ (nls : Nls) (base ext : List ℕ) where
  abbrev pub reread : Fcb → Fcb
  reread f = record f { fcb_fname = pad 8 base; fcb_fext = ext_read base ext }

  abbrev pub found : Fcb → Parsed
  found f = record {
    test_mode = return_wild (has_wild base || has_wild ext);
    rest = [];
    fcb = reread f;
  }

or_false : (b : Bool) → (b || false) ≡ b
or_false true = refl
or_false false = refl

spill_lem :
    (nls : Nls) (base : List ℕ) (f : Fcb)
    → f.fcb_fext ≡ replicate 3 space
    → spill_name (spilt 8 base []) (record f { fcb_fname = pad 8 base }) ≡ reread nls base [] f
spill_lem nls [] f blank = ap (λ e. record f { fcb_fname = pad 8 []; fcb_fext = e }) blank
spill_lem nls (c ∷ s) f blank = elim (Bool-cases (length (c ∷ s) == 8)) [
  | inl full ↦
      rw full (ap (λ e. record f { fcb_fname = pad 8 (c ∷ s); fcb_fext = set e 0 0 }) blank)
  | inr more ↦ rw more (ap (λ e. record f { fcb_fname = pad 8 (c ∷ s); fcb_fext = e }) blank)
]

parse_ext-found :
    (nls : Nls) (base ext : List ℕ) (f : Fcb)
    → All (IsPlain nls) ext
    → length ext ≤ 3
    → f.fcb_cublock ≡ 0
    → f.fcb_fext ≡ replicate 3 space
    → parse_ext nls
        (has_wild base)
        (with_dot ext)
        (spill_name (spilt 8 base (with_dot ext)) (record f { fcb_fname = pad 8 base }))
      ≡ found nls base ext f
unfolding parse_ext
parse_ext-found nls base [] f plain fits zero_block blank =
    ap₂ (λ w g. record { test_mode = return_wild w; rest = []; fcb = g })
      (sym (or_false (has_wild base))) (spill_lem nls base f blank)
parse_ext-found nls base (c ∷ s) f plain fits zero_block blank =
    let o = spilt 8 base (with_dot (c ∷ s)) in
    let named : Fcb = record f { fcb_fname = pad 8 base } in
    let read : get_name_field nls 3 (c ∷ s) ≡ read_field 3 (c ∷ s) [] =
      ap (get_name_field nls 3) (sym (append-nil (c ∷ s)))
      ∙ get_name_field-plain nls 3 (c ∷ s) [] plain fits tt in
    ap
      (λ (r : NameField). record {
        test_mode = return_wild (has_wild base || r.wild);
        rest = r.rest;
        fcb = spill_ext r.spill (record (spill_name o named) { fcb_fext = r.field });
      })
      read
    ∙ ap
        (λ g. record {
          test_mode = return_wild (has_wild base || has_wild (c ∷ s));
          rest = [];
          fcb = g;
        })
        (ap (spill_ext (spilt 3 (c ∷ s) [])) (spill_name-over o named (pad 3 (c ∷ s)))
          ∙ spill_ext-end (c ∷ s) (record named { fcb_fext = pad 3 (c ∷ s) }) zero_block)

parse_plain-found :
    (nls : Nls) (base ext : List ℕ) (f : Fcb)
    → All (IsPlain nls) base
    → All (IsPlain nls) ext
    → length base ≤ 8
    → length ext ≤ 3
    → f.fcb_cublock ≡ 0
    → f.fcb_fext ≡ replicate 3 space
    → parse_plain nls (base ++ with_dot ext) f ≡ found nls base ext f
unfolding parse_plain
parse_plain-found nls base ext f base_plain ext_plain base_fits ext_fits zero_block blank =
    ap
      (λ (r : NameField).
        parse_ext nls r.wild r.rest (spill_name r.spill (record f { fcb_fname = r.field })))
      (get_name_field-plain nls 8 base (with_dot ext) base_plain base_fits (with_dot-Stops ext))
    ∙ parse_ext-found nls base ext f ext_plain ext_fits zero_block blank

parse_name-found :
    (nls : Nls) (base ext : List ℕ) (f g : Fcb)
    → IsNamed nls base ext g
    → f.fcb_cublock ≡ 0
    → f.fcb_fext ≡ replicate 3 space
    → parse_name nls (base ++ with_dot ext) f ≡ found nls base ext f
parse_name-found nls [] ext f g named zero_block blank = absurd (named.some_base refl)
parse_name-found nls (c ∷ s) ext f g named zero_block blank =
    let (_, _, dot, _) = plain_not nls c named.base_plain.0 in
    let test : (c == b'.') ≡ false = ground arith in
    rw test (
      parse_plain-found nls (c ∷ s) ext f named.base_plain named.ext_plain named.base_fits
        named.ext_fits zero_block blank)

-- The byte behind the first one of a name is no colon.
not_colon :
    (nls : Nls) (base ext : List ℕ)
    → All (IsPlain nls) base
    → (lead_byte (base ++ with_dot ext) == b':') ≡ false
not_colon nls [] [] plain = refl
not_colon nls [] (e ∷ ext) plain = refl
not_colon nls (d ∷ base) ext (d_plain, _) =
    let (_, _, _, colon) = plain_not nls d d_plain in ground arith

parse_drive-plain :
    (nls : Nls) (has_cds : ℕ → Bool) (c : ℕ) (s : List ℕ) (f : Fcb)
    → (lead_byte s == b':') ≡ false
    → parse_drive nls has_cds 0 (c ∷ s) f
      ≡ parse_name nls (c ∷ s) (blanked 0 (record f { fcb_drive = 0 }))
unfolding parse_drive
parse_drive-plain nls has_cds c [] f e = refl
parse_drive-plain nls has_cds c (d ∷ s) f e = rw e refl

-- What the FCB `g` holds after the name of `f` has been parsed into it.
abbrev pub named_as : ℕ → Nls → List ℕ → List ℕ → Fcb → Fcb
named_as drive nls base ext g = reread nls base ext (blanked 0 (record g { fcb_drive = drive }))

parse_default :
    (nls : Nls) (has_cds : ℕ → Bool) (base ext : List ℕ) (f g : Fcb)
    → IsNamed nls base ext f
    → fcb_parse_fname nls has_cds 0 (base ++ with_dot ext) g
      ≡ found nls base ext (blanked 0 (record g { fcb_drive = 0 }))
unfolding fcb_parse_fname parse_skip_wh
parse_default nls has_cds [] ext f g named = absurd (named.some_base refl)
parse_default nls has_cds (c ∷ s) ext f g named =
    let (blank, tab, dot, colon) = plain_not nls c named.base_plain.0 in
    let test : (c == 32 || c == 9) ≡ false = ground arith in
    rw test (
      parse_drive-plain nls has_cds c (s ++ with_dot ext) g (not_colon nls s ext named.base_plain.1)
      ∙ parse_name-found nls (c ∷ s) ext (blanked 0 (record g { fcb_drive = 0 })) f named refl refl)

parse_letter :
    (nls : Nls) (has_cds : ℕ → Bool) (base ext : List ℕ) (f g : Fcb)
    → IsNamed nls base ext f
    → f.fcb_drive ≢ 0
    → f.fcb_drive ≤ 26
    → nls.up_mem ((64 + f.fcb_drive) ∷ []) ≡ (64 + f.fcb_drive) ∷ []
    → has_cds (f.fcb_drive - 1) ≡ true
    → fcb_parse_fname nls has_cds 0 (((64 + f.fcb_drive) % 2 ^ 8) ∷ b':' ∷ base ++ with_dot ext) g
      ≡ found nls base ext (blanked 0 (record g { fcb_drive = f.fcb_drive }))
unfolding fcb_parse_fname parse_skip_wh parse_drive
parse_letter nls has_cds base ext f g named real few up cds =
    let letter : (64 + f.fcb_drive) % 2 ^ 8 ≡ 64 + f.fcb_drive = omega arith in
    let test : ((64 + f.fcb_drive) == 32 || (64 + f.fcb_drive) == 9) ≡ false = ground arith in
    let drive : (64 + f.fcb_drive + 191) % 2 ^ 8 ≡ f.fcb_drive - 1 = omega arith in
    let back : (f.fcb_drive - 1 + 1) % 2 ^ 8 ≡ f.fcb_drive = omega arith in
    rw letter (
      rw test (
        rw up (
          rw drive (
            rw cds (
              rw back (
                parse_name-found nls base ext (blanked 0 (record g { fcb_drive = f.fcb_drive })) f
                  named refl refl))))))

-- A name that FcbNameInit writes and FcbParseFname reads again, with no flag set: the drive, the name
-- and the extension are those of the first FCB, the whole string is read, and a wildcard is reported
-- exactly if there is a question mark. But a name of eight bytes with no extension comes back with
-- a zero in the first byte of its extension. The name is of one byte at least, it and the extension
-- are filled up with blanks, and each of their bytes is below 128, no separator and no star, and
-- left alone by upcasing; so is the letter of the drive, which is the default one or one of the
-- first 26 and is known to the kernel.
pub fcb_parse_fname-fcb_name_init :
    (nls : Nls) (has_cds : ℕ → Bool) (base ext : List ℕ) (f g : Fcb)
    → IsNamed nls base ext f
    → f.fcb_drive ≤ 26
    → (f.fcb_drive ≡ 0)
      ⊎ ((nls.up_mem ((64 + f.fcb_drive) ∷ []) ≡ (64 + f.fcb_drive) ∷ [])
          × (has_cds (f.fcb_drive - 1) ≡ true))
    → fcb_parse_fname nls has_cds 0 (fcb_name_init f) g ≡ record {
      test_mode = return_wild (has_wild base || has_wild ext);
      rest = [];
      fcb = named_as f.fcb_drive nls base ext g;
    }
unfolding fcb_name_init
fcb_parse_fname-fcb_name_init nls has_cds base ext f g named few drive =
    let name : convert_name83_to_name_sz f.fcb_fname f.fcb_fext ≡ base ++ with_dot ext =
      ap₂ convert_name83_to_name_sz named.fname_is named.fext_is
      ∙ convert_lem nls base ext named.base_plain named.ext_plain named.some_base in
    let answer = λ (d : ℕ). found nls base ext (blanked 0 (record g { fcb_drive = d })) in
    elim (ℕ_discrete f.fcb_drive 0) [
      | yes zero_drive ↦
          let test : (f.fcb_drive == 0) ≡ true = ground arith in
          rw test (
            ap (λ s. fcb_parse_fname nls has_cds 0 s g) name
            ∙ parse_default nls has_cds base ext f g named
            ∙ ap answer (sym zero_drive))
      | no real ↦
          let test : (f.fcb_drive == 0) ≡ false = ground arith in
          elim drive [
            | inl zero_drive ↦ absurd (real zero_drive)
            | inr (up, cds) ↦ rw test (
                ap (λ s. fcb_parse_fname nls has_cds 0 (((64 + f.fcb_drive) % 2 ^ 8) ∷ b':' ∷ s) g)
                  name
                ∙ parse_letter nls has_cds base ext f g named real few up cds)
          ]
    ]
