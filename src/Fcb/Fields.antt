-- ===== src/Fcb/Fields.antt =====
-- The fields of a name of eight and three bytes, written out and read again by kernel/fcbfns.c.
use fdkernel.Common.{
  ℕ, zero, suc, ◌+◌, ◌-◌, ◌≤◌, ◌<◌, ◌≡◌, ◌≢◌, inl, inr, refl, Bool, true, false, ◌||◌, List, [],
  ◌∷◌, ◌++◌, ◌==◌, if◌then◌else◌, replicate, length, All, Option, none, some, arith, Bool-cases,
}
use fdkernel.Fcb.Dbcs.{Nls, lead_byte, is_double, dbcs_is_in_tbl}
use fdkernel.Fcb.Name83.{space, trimmed}
use fdkernel.Fcb.Parse.{NameField, get_name_field, end_field, prepend, copy_next, test_field_seps}

-- A character that a name may hold and that upcasing keeps; `?` is one.
abbrev pub IsPlain : Nls → ℕ → Type 0
IsPlain nls c =
    (c < 128) × (c ≢ b'*') × (test_field_seps c ≡ false) × (nls.up_mem (c ∷ []) ≡ c ∷ [])

abbrev pub has_wild : List ℕ → Bool
has_wild [] = false
has_wild (c ∷ s) = c == b'?' || has_wild s

abbrev pub pad : ℕ → List ℕ → List ℕ
pad room [] = replicate room space
pad room (c ∷ s) = c ∷ pad (room - 1) s

-- A separator, or the end of the string.
abbrev pub Stops : List ℕ → Type 0
Stops [] = Unit
Stops (c ∷ s) = test_field_seps c ≡ true

-- The byte behind the field, where the name fills it.
abbrev pub spilt : ℕ → List ℕ → List ℕ → Option ℕ
spilt room [] tail = none
spilt room (c ∷ s) tail = if length (c ∷ s) == room then some (lead_byte tail) else none

abbrev pub read_field : ℕ → List ℕ → List ℕ → NameField
read_field room base tail = record {
  rest = tail;
  field = pad room base;
  wild = has_wild base;
  spill = spilt room base tail;
}

single_byte : (nls : Nls) (c y : ℕ) → c < 128 → is_double nls c y ≡ false
unfolding is_double dbcs_is_in_tbl
single_byte nls c y small = ground arith

stop_lem :
    (nls : Nls) (room : ℕ) (tail : List ℕ)
    → Stops tail
    → get_name_field nls room tail ≡ end_field tail room space false
unfolding get_name_field
stop_lem nls room [] stops = refl
stop_lem nls room (c ∷ []) stops = rw stops refl
stop_lem nls room (c ∷ y ∷ s) stops = rw stops refl

copy_lem :
    (room c : ℕ) (base tail : List ℕ)
    → length base + 1 ≤ room
    → copy_next room
        (lead_byte (base ++ tail))
        (prepend (c ∷ []) (c == b'?') (read_field (room - 1) base tail))
      ≡ read_field room (c ∷ base) tail
copy_lem room c [] tail fits = elim (Bool-cases (room == 1)) [
  | inl last ↦ let test : (1 == room) ≡ true = ground arith in rw last (rw test refl)
  | inr more ↦ let test : (1 == room) ≡ false = ground arith in rw more (rw test refl)
]
copy_lem room c (d ∷ base) tail fits =
    let more : (room == 1) ≡ false = ground arith in
    let same : (length (d ∷ base) == (room - 1)) ≡ (length (c ∷ d ∷ base) == room) = ground arith in
    rw more (rw same refl)

pub get_name_field-plain :
    (nls : Nls) (room : ℕ) (base tail : List ℕ)
    → All (IsPlain nls) base
    → length base ≤ room
    → Stops tail
    → get_name_field nls room (base ++ tail) ≡ read_field room base tail
unfolding get_name_field
get_name_field-plain nls room [] tail plain fits stops = stop_lem nls room tail stops
get_name_field-plain nls room (c ∷ []) [] ((small, star, fine, up), _) fits stops =
    let some_room : (room == 0) ≡ false = ground arith in
    let no_star : (c == b'*') ≡ false = ground arith in
    rw fine (rw some_room (rw no_star (rw up (copy_lem room c [] [] (omega arith)))))
get_name_field-plain nls room (c ∷ []) (t ∷ tail) ((small, star, fine, up), _) fits stops =
    let some_room : (room == 0) ≡ false = ground arith in
    let no_star : (c == b'*') ≡ false = ground arith in
    rw fine (
      rw some_room (
        rw no_star (
          rw (single_byte nls c t small) (
            rw up (
              rw (stop_lem nls (room - 1) (t ∷ tail) stops)
                (copy_lem room c [] (t ∷ tail) (omega arith)))))))
get_name_field-plain nls room (c ∷ d ∷ base) tail ((small, star, fine, up), plain) fits stops =
    let some_room : (room == 0) ≡ false = ground arith in
    let no_star : (c == b'*') ≡ false = ground arith in
    let rest = get_name_field-plain nls (room - 1) (d ∷ base) tail plain (omega arith) stops in
    rw fine (
      rw some_room (
        rw no_star (
          rw (single_byte nls c d small)
            (rw up (rw rest (copy_lem room c (d ∷ base) tail (omega arith)))))))

trimmed-spaces : (k : ℕ) → trimmed (replicate k space) ≡ []
unfolding trimmed
trimmed-spaces zero = refl
trimmed-spaces (suc k) = rw (trimmed-spaces k, trimmed)

not_space : (c : ℕ) → test_field_seps c ≡ false → (c == space) ≡ false
unfolding test_field_seps
not_space c fine = ground arith

pub trimmed-pad :
    (nls : Nls) (room : ℕ) (base : List ℕ) → All (IsPlain nls) base → trimmed (pad room base) ≡ base
unfolding trimmed
trimmed-pad nls room [] plain = trimmed-spaces room
trimmed-pad nls room (c ∷ []) ((_, _, fine, _), _) =
    rw (trimmed-spaces (room - 1), trimmed) (rw (not_space c fine))
trimmed-pad nls room (c ∷ d ∷ base) (_, plain) =
    rw (trimmed-pad nls (room - 1) (d ∷ base) plain, trimmed)
