-- ===== src/Fcb/Dbcs.antt =====
-- kernel/nls.c: characters of two bytes. Upcasing is an assembler routine, or a call of NLSFUNC.
use fdkernel.Common.{ℕ, Bool, true, false, ◌&&◌, List, [], ◌∷◌, ltb, leb, ◌==◌, if◌then◌else◌}

-- The table of the lead bytes, as pairs of the first and the last one, and the upcasing of a
-- stretch of memory for file names.
pub record Nls : Type 0 where
  pub dbcs_tbl : List (ℕ × ℕ)
  pub up_mem : List ℕ → List ℕ

-- The first byte of a string, which ends where the list does.
abbrev pub lead_byte : List ℕ → ℕ
lead_byte [] = 0
lead_byte (c ∷ s) = c

abbrev pub in_pairs : List (ℕ × ℕ) → ℕ → Bool
in_pairs [] ch = false
in_pairs ((low, high) ∷ rest) ch =
    if high == 0 then false else (if leb low ch && leb ch high then true else in_pairs rest ch)

unfoldable pub dbcs_is_in_tbl : Nls → ℕ → Bool
dbcs_is_in_tbl nls ch = if ltb 127 ch then in_pairs nls.dbcs_tbl ch else false

-- Whether the character is of two bytes; `next` is the byte behind it.
unfoldable pub is_double : Nls → ℕ → ℕ → Bool
is_double nls ch next =
    if dbcs_is_in_tbl nls ch then (if ltb next 32 then false else true) else false
