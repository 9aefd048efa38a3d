-- ===== src/Strings/Laws.antt =====
-- What the routines of kernel/strings.c compute.
use fdkernel.Common.{
  ℕ, zero, suc, ◌%◌, ◌^◌, ◌<◌, ◌≡◌, ◌↔◌, ◌≢◌, refl, false, List, [], ◌∷◌, none, some, pos, ◌==◌,
  arith, All, length, get_or, sym, ◌⊎◌, inl, inr, ℕ_discrete,
}
use fdkernel.Share.Names.{text}
use fdkernel.Strings.Routines.{strlen, fstrcpy, minus, strcmp, strncmp, strchr}

abbrev pub IsByte : ℕ → Type 0
IsByte b = b < 2 ^ 8

-- The first bytes of a list.
abbrev pub take : ℕ → List ℕ → List ℕ
take zero xs = []
take (suc n) [] = []
take (suc n) (x ∷ xs) = x ∷ take n xs

minus_iff : (offset a b : ℕ) → IsByte a → IsByte b → (minus offset a b ≡ pos 0) ↔ (a ≡ b)
unfolding minus
minus_iff offset a b h k = ground arith

-- `strcmp` returns zero exactly for equal strings, whether `char` is signed or not.
pub strcmp_iff :
    (offset : ℕ) (d s : List ℕ)
    → All IsByte d
    → All IsByte s
    → (strcmp offset d s ≡ pos 0) ↔ (text d ≡ text s)
unfolding strcmp text
strcmp_iff offset [] [] h k = ground (arith, minus_iff offset 0 0)
strcmp_iff offset [] (y ∷ s) h k = ground (arith, minus_iff offset 0 y)
strcmp_iff offset (x ∷ d) [] h k = ground (arith, minus_iff offset x 0)
strcmp_iff offset (x ∷ d) (y ∷ s) h k = ground (arith, minus_iff offset x y, strcmp_iff offset d s)

-- `strncmp` with a count `l` returns zero exactly when the strings agree on their first `l + 1`
-- bytes: it looks one byte further than the count says.
pub strncmp_iff :
    (offset : ℕ) (d s : List ℕ) (l : ℕ)
    → All IsByte d
    → All IsByte s
    → (strncmp offset d s l ≡ pos 0) ↔ (text (take (suc l) d) ≡ text (take (suc l) s))
unfolding strncmp text
strncmp_iff offset [] [] l h k = ground (arith, minus_iff offset 0 0)
strncmp_iff offset [] (y ∷ s) l h k = ground (arith, minus_iff offset 0 y)
strncmp_iff offset (x ∷ d) [] l h k = ground (arith, minus_iff offset x 0)
strncmp_iff offset (x ∷ d) (y ∷ s) zero h k = ground (arith, minus_iff offset x y)
strncmp_iff offset (x ∷ d) (y ∷ s) (suc l) h k =
    ground (arith, minus_iff offset x y, strncmp_iff offset d s l)

-- A copied string reads as its source, and its length is that of the text.
pub strlen-fstrcpy :
    (d s : List ℕ) → (text (fstrcpy d s) ≡ text s) × (strlen (fstrcpy d s) ≡ length (text s))
unfolding fstrcpy text strlen
strlen-fstrcpy [] [] = (refl, refl)
strlen-fstrcpy (e ∷ d) [] = (refl, refl)
strlen-fstrcpy [] (c ∷ s) = ground (arith, strlen-fstrcpy [] s)
strlen-fstrcpy (e ∷ d) (c ∷ s) = ground (arith, strlen-fstrcpy d s)

below_suc :
    (Q : ℕ → Type 0) (n : ℕ) → Q 0 → ((m : ℕ) → m < n → Q (suc m)) → (m : ℕ) → m < suc n → Q m
below_suc Q n first rest zero h = first
below_suc Q n first rest (suc m) h = rest m (omega arith)

-- `strchr` finds the first place of the byte, the closing zero byte included; it returns NULL
-- only when no byte of the string is the one asked for.
pub strchr_lem :
    (s : List ℕ) (c : ℕ)
    → ((n : ℕ) × (strchr s c ≡ some n)
        × (get_or s n 0 ≡ c % 2 ^ 8)
        × ((m : ℕ) → m < n → (get_or s m 0 ≢ c % 2 ^ 8) × (get_or s m 0 ≢ 0)))
      ⊎ ((strchr s c ≡ none)
          × (c % 2 ^ 8 ≢ 0)
          × ((m : ℕ) → m < length (text s) → get_or s m 0 ≢ c % 2 ^ 8))
unfolding strchr text
strchr_lem [] c = elim (ℕ_discrete (c % 2 ^ 8) 0) [
  | yes e ↦ inl (0, ground arith, sym e, λ m h. absurd (omega arith))
  | no e ↦ inr (ground arith, e, λ m h. absurd (omega arith))
]
strchr_lem (x ∷ s) c = elim (ℕ_discrete x (c % 2 ^ 8)) [
  | yes e ↦ inl (0, ground arith, e, λ m h. absurd (omega arith))
  | no e ↦ elim (ℕ_discrete x 0) [
    | yes z ↦ inr (ground arith, ground arith, λ m h. absurd (ground arith))
    | no z ↦
        let test : (x == c % 2 ^ 8) ≡ false = ground arith in
        let test' : (x == 0) ≡ false = ground arith in
        elim (strchr_lem s c) [
          | inl (n, found, here, before) ↦ inl (
            suc n,
            rw (test, test', found),
            here,
            below_suc (λ m. (get_or (x ∷ s) m 0 ≢ c % 2 ^ 8) × (get_or (x ∷ s) m 0 ≢ 0)) n (e, z)
                before,
          )
          | inr (missing, other, none_here) ↦ inr (
            rw (test, test', missing),
            other,
            rw test'
                (below_suc (λ m. get_or (x ∷ s) m 0 ≢ c % 2 ^ 8) (length (text s)) e none_here),
          )
        ]
  ]
]
