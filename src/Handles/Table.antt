-- ===== src/Handles/Table.antt =====
-- The chain of tables of kernel/dosfns.c as one array, and the handles that refer to an entry.
use fdkernel.Common.{
  ℕ, zero, suc, ◌+◌, ◌-◌, ◌<◌, ◌≡◌, inl, inr, refl, Bool, true, false, Option, none, some, List, [],
  ◌∷◌, ltb, ◌==◌, if◌then◌else◌, length, get_or, get_elem?, set, arith, Bool-cases, ap,
}
use fdkernel.Handles.State.{Sft, find_sft, put_sft, no_file}

abbrev pub one_if : Bool → ℕ
one_if true = 1
one_if false = 0

abbrev pub count_in : Option Sft → ℕ
count_in none = 0
count_in (some x) = x.sft_count

-- How many holders an entry has, none where there is no entry.
abbrev pub count_of : List (List Sft) → ℕ → ℕ
count_of ts i = count_in (find_sft ts i)

-- How many handles refer to an entry.
abbrev pub refs : List ℕ → ℕ → ℕ
refs [] i = 0
refs (x ∷ xs) i = one_if (x == i) + refs xs i

pub refs-set :
    (xs : List ℕ) (h v i : ℕ)
    → h < length xs
    → refs (set xs h v) i + one_if (get_or xs h no_file == i) ≡ refs xs i + one_if (v == i)
refs-set [] h v i below = elim below [ ]
refs-set (x ∷ xs) zero v i below = omega arith
refs-set (x ∷ xs) (suc h) v i below = omega (arith, refs-set xs h v i)

get_elem?-set :
    (xs : List Sft) (i j : ℕ) (y : Sft)
    → i < length xs
    → get_elem? (set xs i y) j ≡ (if i == j then some y else get_elem? xs j)
get_elem?-set [] i j y below = elim below [ ]
get_elem?-set (x ∷ xs) zero zero y below = refl
get_elem?-set (x ∷ xs) zero (suc j) y below = ground arith
get_elem?-set (x ∷ xs) (suc i) zero y below = ground arith
get_elem?-set (x ∷ xs) (suc i) (suc j) y below = ground (arith, get_elem?-set xs i j y)

pub length-set_sft : (xs : List Sft) (i : ℕ) (y : Sft) → length (set xs i y) ≡ length xs
length-set_sft [] i y = refl
length-set_sft (x ∷ xs) zero y = refl
length-set_sft (x ∷ xs) (suc i) y = ap suc (length-set_sft xs i y)

pub find_sft-put_sft :
    (ts : List (List Sft)) (i j : ℕ) (x y : Sft)
    → find_sft ts i ≡ some x
    → find_sft (put_sft ts i y) j ≡ (if i == j then some y else find_sft ts j)
unfolding find_sft put_sft
find_sft-put_sft [] i j x y e = cc
find_sft-put_sft (t ∷ ts) i j x y e = elim (Bool-cases (ltb i (length t))) [
  | inl here ↦ rw here (ground (arith, get_elem?-set t i j y, length-set_sft t i y))
  | inr later ↦ rw later (ground (arith, find_sft-put_sft ts (i - length t) (j - length t) x y))
]

pub count_of-put_sft :
    (ts : List (List Sft)) (i j : ℕ) (x y : Sft)
    → find_sft ts i ≡ some x
    → count_of (put_sft ts i y) j ≡ (if i == j then y.sft_count else count_of ts j)
count_of-put_sft ts i j x y e = ground (arith, find_sft-put_sft ts i j x y e)
