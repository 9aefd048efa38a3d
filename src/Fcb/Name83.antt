-- ===== src/Fcb/Name83.antt =====
-- kernel/fatdir.c: names of eight and three bytes against strings.
use fdkernel.Common.{
  ℕ, ◌+◌, ◌||◌, List, [], ◌∷◌, ◌++◌, ltb, leb, ◌==◌, if◌then◌else◌, replicate, set,
}
use fdkernel.Fcb.Dbcs.{Nls, lead_byte, is_double}

abbrev pub space : ℕ
space = 32

-- The bytes up to the last one that is no space.
unfoldable pub trimmed : List ℕ → List ℕ
trimmed [] = []
trimmed (c ∷ s) =
    let rest = trimmed s in
    elim rest [ [] ↦ if c == space then [] else c ∷ [] | x ∷ xs ↦ c ∷ x ∷ xs ]

abbrev pub with_dot : List ℕ → List ℕ
with_dot [] = []
with_dot (c ∷ s) = b'.' ∷ c ∷ s

-- The extension of "." and ".." is not looked at.
unfoldable pub convert_name83_to_name_sz : List ℕ → List ℕ → List ℕ
convert_name83_to_name_sz fname fext =
    trimmed fname ++ (if lead_byte fname == b'.' then [] else with_dot (trimmed fext))

abbrev pub fname_size : ℕ
fname_size = 8

abbrev pub fext_size : ℕ
fext_size = 3

-- The name that is being filled and what is left of the string; `i` is the place of the next byte.
-- A dot leads to the extension, from wherever it stands.
unfoldable pub fill_name83 : Nls → List ℕ → ℕ → List ℕ → List ℕ × List ℕ
fill_name83 nls dest i [] = (dest, [])
fill_name83 nls dest i (c ∷ []) =
    if leb 11 i || c == 0 || c == b'\\'
    then (dest, c ∷ [])
    else (if c == b'.' then dest else set dest i c, [])
fill_name83 nls dest i (c ∷ y ∷ s) =
    let at_dot = fill_name83 nls dest fname_size (y ∷ s) in
    let single = fill_name83 nls (set dest i c) (i + 1) (y ∷ s) in
    let double = fill_name83 nls (set (set dest i c) (i + 1) y) (i + 2) s in
    if leb 11 i || c == 0
    then (dest, c ∷ y ∷ s)
    else (if c == b'.'
        then at_dot
        else (if c == b'\\'
            then (dest, c ∷ y ∷ s)
            else (if is_double nls c y
                then (if ltb (i + 1) 11 then double else (set dest i c, y ∷ s))
                else single)))

unfoldable pub convert_name_sz_to_name83 : Nls → List ℕ → List ℕ × List ℕ
convert_name_sz_to_name83 nls dirname = fill_name83 nls (replicate 11 space) 0 dirname
