-- ===== src/Share/Names.antt =====
-- share/share.c: `fnmatches`, and the loop of `open_check` that copies a name.
use fdkernel.Common.{
  ℕ, zero, suc, ◌≤◌, ◌<◌, ◌≡◌, ◌↔◌, refl, Bool, true, false, List, [], ◌∷◌, arith, ◌==◌,
  if◌then◌else◌, length, get_or,
}

-- The text in a byte array: the bytes before the first zero byte.
unfoldable pub text : List ℕ → List ℕ
text [] = []
text (c ∷ cs) = if c == 0 then [] else c ∷ text cs

-- The end of a list is read as the closing zero byte.
unfoldable pub fnmatches : List ℕ → List ℕ → Bool
fnmatches [] ys = get_or ys 0 0 == 0
fnmatches (x ∷ xs) [] = x == 0
fnmatches (x ∷ xs) (y ∷ ys) = if x == 0 then x == y else if x == y then fnmatches xs ys else false

-- `filename[i]` is written up to and including the zero byte, and at most `n` bytes.
unfoldable pub copy_name : ℕ → List ℕ → List ℕ → List ℕ
copy_name zero src dst = dst
copy_name (suc n) src [] = []
copy_name (suc n) [] (d ∷ ds) = 0 ∷ ds
copy_name (suc n) (c ∷ cs) (d ∷ ds) = if c == 0 then 0 ∷ ds else c ∷ copy_name n cs ds

-- `fnmatches` decides whether two arrays hold the same text.
pub fnmatches_iff : (xs ys : List ℕ) → (fnmatches xs ys ≡ true) ↔ (text xs ≡ text ys)
unfolding fnmatches text
fnmatches_iff [] [] = ground arith
fnmatches_iff [] (y ∷ ys) = ground arith
fnmatches_iff (x ∷ xs) [] = ground arith
fnmatches_iff (x ∷ xs) (y ∷ ys) = ground (arith, fnmatches_iff xs ys)

-- A name shorter than the array, and all that the count lets through, arrives whole.
pub text-copy_name :
    (n : ℕ) (src dst : List ℕ)
    → length src < n
    → n ≤ length dst
    → text (copy_name n src dst) ≡ text src
unfolding text copy_name
text-copy_name zero src dst h k = absurd (omega arith)
text-copy_name (suc n) src [] h k = absurd (omega arith)
text-copy_name (suc n) [] (d ∷ ds) h k = refl
text-copy_name (suc n) (c ∷ cs) (d ∷ ds) h k = ground (arith, text-copy_name n cs ds)

pub length-copy_name : (n : ℕ) (src dst : List ℕ) → length (copy_name n src dst) ≡ length dst
unfolding copy_name
length-copy_name zero src dst = refl
length-copy_name (suc n) src [] = refl
length-copy_name (suc n) [] (d ∷ ds) = refl
length-copy_name (suc n) (c ∷ cs) (d ∷ ds) = ground (arith, length-copy_name n cs ds)

-- An array is in use exactly when its first byte is not zero.
pub text-eq-nil_iff : (xs : List ℕ) → (text xs ≡ []) ↔ (get_or xs 0 0 ≡ 0)
unfolding text
text-eq-nil_iff [] = ground arith
text-eq-nil_iff (x ∷ xs) = ground arith
