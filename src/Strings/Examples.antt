-- ===== src/Strings/Examples.antt =====
-- Runs of the routines of kernel/strings.c.
use fdkernel.Common.{ℕ, ◌≡◌, ◌↔◌, refl, List, [], ◌∷◌, pos, negsuc, arith, suc, All}
use fdkernel.Share.Names.{text}
use fdkernel.Strings.Routines.{strncmp, minus}
use fdkernel.Strings.Laws.{IsByte, take, strncmp_iff}

-- "ab", with a byte behind the closing zero, and "ac".
abbrev ab : List ℕ
ab = 97 ∷ 98 ∷ 0 ∷ 7 ∷ []

abbrev ac : List ℕ
ac = 97 ∷ 99 ∷ 0 ∷ []

-- One byte of each is equal, and yet the result for a count of one is not zero.
strncmp_run : strncmp 128 ab ac 1 ≡ negsuc 0
unfolding strncmp minus
strncmp_run = refl

ab-IsByte : All IsByte ab
ab-IsByte = (omega arith, (omega arith, (omega arith, (omega arith, tt))))

ac-IsByte : All IsByte ac
ac-IsByte = (omega arith, (omega arith, (omega arith, tt)))

strncmp_iff_example :
    (strncmp 128 ab ac 1 ≡ pos 0) ↔ (text (take (suc 1) ab) ≡ text (take (suc 1) ac))
strncmp_iff_example = strncmp_iff 128 ab ac 1 ab-IsByte ac-IsByte
