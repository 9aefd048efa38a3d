-- ===== src/Strings/Routines.antt =====
-- kernel/strings.c, the routines in C. A string is the list of the bytes from its pointer on, and
-- the end of a list is read as the closing zero byte. Whether `char` is signed is left to the
-- compiler: the value of a byte is `(b + offset) % 256` less a constant, with `offset` 0 or 128.
-- A count `l` is below the largest value of its type, so that `index` does not wrap.
use fdkernel.Common.{
  ℕ, zero, suc, ◌+◌, ◌-◌, ◌%◌, ◌^◌, List, [], ◌∷◌, Option, none, some, ℤ, pos, negsuc, leb, ◌==◌,
  if◌then◌else◌, ◌||◌,
}

-- `strlen` and `fstrlen`.
unfoldable pub strlen : List ℕ → ℕ
strlen [] = 0
strlen (c ∷ s) = if c == 0 then 0 else 1 + strlen s

-- The bytes that `_fstrcpy` leaves at its destination.
unfoldable pub fstrcpy : List ℕ → List ℕ → List ℕ
fstrcpy [] [] = 0 ∷ []
fstrcpy (e ∷ d) [] = 0 ∷ d
fstrcpy [] (c ∷ s) = if c == 0 then 0 ∷ [] else c ∷ fstrcpy [] s
fstrcpy (e ∷ d) (c ∷ s) = if c == 0 then 0 ∷ d else c ∷ fstrcpy d s

-- `*d - *s`.
unfoldable pub minus : ℕ → ℕ → ℕ → ℤ
minus offset d s =
    let a = (d + offset) % 2 ^ 8 in
    let b = (s + offset) % 2 ^ 8 in if leb b a then pos (a - b) else negsuc (b - a - 1)

-- `strcmp` and `fstrcmp`.
unfoldable pub strcmp : ℕ → List ℕ → List ℕ → ℤ
strcmp offset [] [] = minus offset 0 0
strcmp offset [] (y ∷ s) = minus offset 0 y
strcmp offset (x ∷ d) [] = minus offset x 0
strcmp offset (x ∷ d) (y ∷ s) =
    let rest = strcmp offset d s in
    if (y == 0) || (x == 0) then minus offset x y else if x == y then rest else minus offset x y

-- `strncmp` and `fstrncmp`; the count that is left stands for `index`.
unfoldable pub strncmp : ℕ → List ℕ → List ℕ → ℕ → ℤ
strncmp offset [] [] l = minus offset 0 0
strncmp offset [] (y ∷ s) l = minus offset 0 y
strncmp offset (x ∷ d) [] l = minus offset x 0
strncmp offset (x ∷ d) (y ∷ s) zero = minus offset x y
strncmp offset (x ∷ d) (y ∷ s) (suc l) =
    let rest = strncmp offset d s l in
    if (y == 0) || (x == 0) then minus offset x y else if x == y then rest else minus offset x y

-- `strchr` and `memchr`: how far from the start the byte is, or NULL.
unfoldable pub strchr : List ℕ → ℕ → Option ℕ
strchr [] c = if c % 2 ^ 8 == 0 then some 0 else none
strchr (x ∷ s) c =
    let rest = strchr s c in
    if x == c % 2 ^ 8
    then some 0
    else (if x == 0 then none else elim rest [ none ↦ none | some n ↦ some (suc n) ])
