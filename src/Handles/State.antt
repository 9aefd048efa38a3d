-- ===== src/Handles/State.antt =====
-- kernel/dosfns.c: the system file table, a chain of tables, and the handle table of a process.
use fdkernel.Common.{
  ℕ, zero, suc, ◌+◌, ◌-◌, Bool, Option, none, some, List, [], ◌∷◌, ℤ, ltb, leb, ◌==◌, if◌then◌else◌,
  length, get_or, get_elem?, set,
}

-- `sft_flags`: a file of the redirector (`SFT_FSHARED`), a device (`SFT_FDEVICE`), whose driver
-- may want to be told (`SFT_FOCRM`), or a file on a disk.
pub data SftKind : Type 0 where
  shared : SftKind
  device : Bool → SftKind
  file : SftKind

-- The fields that count handles and lead to SHARE.
pub record Sft : Type 0 where
  pub sft_count : ℕ
  pub sft_mode : ℕ
  pub sft_flags : SftKind
  pub sft_shroff : ℤ

-- `filetab` is `ps_filetab` of the current process. `share_closed` lists the calls of
-- `share_close_file`.
pub record Files : Type 0 where
  pub tables : List (List Sft)
  pub filetab : List ℕ
  pub maxfiles : ℕ
  pub share_closed : List ℤ

abbrev pub no_file : ℕ
no_file = 255

-- `idx_to_sft_`: the entry that an index of the chain of tables leads to.
unfoldable pub find_sft : List (List Sft) → ℕ → Option Sft
find_sft [] i = none
find_sft (t ∷ ts) i = if ltb i (length t) then get_elem? t i else find_sft ts (i - length t)

unfoldable pub put_sft : List (List Sft) → ℕ → Sft → List (List Sft)
put_sft [] i x = []
put_sft (t ∷ ts) i x = if ltb i (length t) then set t i x ∷ ts else t ∷ put_sft ts (i - length t) x

-- An entry that no handle holds is of no use.
abbrev pub if_open : Option Sft → Option Sft
if_open none = none
if_open (some x) = if x.sft_count == 0 then none else some x

unfoldable pub idx_to_sft : Files → ℕ → Option Sft
idx_to_sft s i = if_open (find_sft s.tables i)

-- None stands for `DE_INVLDHNDL`.
unfoldable pub get_sft_idx : Files → ℕ → Option ℕ
get_sft_idx s hndl =
    let idx = get_or s.filetab hndl no_file in
    if leb s.maxfiles hndl then none else (if idx == no_file then none else some idx)

abbrev pub sft_at : Files → Option ℕ → Option Sft
sft_at s none = none
sft_at s (some i) = idx_to_sft s i

unfoldable pub get_sft : Files → ℕ → Option Sft
get_sft s hndl = sft_at s (get_sft_idx s hndl)

-- `fmemchr`: the first free place among the first `n`.
unfoldable pub free_place : List ℕ → ℕ → Option ℕ
free_place xs zero = none
free_place [] (suc n) = none
free_place (x ∷ xs) (suc n) =
    let rest = free_place xs n in
    if x == no_file then some 0 else elim rest [ none ↦ none | some i ↦ some (suc i) ]

unfoldable pub get_free_hndl : Files → Option ℕ
get_free_hndl s = free_place s.filetab s.maxfiles

unfoldable pub free_in_table : List Sft → Option ℕ
free_in_table [] = none
free_in_table (x ∷ xs) =
    let rest = free_in_table xs in
    if x.sft_count == 0 then some 0 else elim rest [ none ↦ none | some i ↦ some (suc i) ]

unfoldable pub get_free_sft : List (List Sft) → Option ℕ
get_free_sft [] = none
get_free_sft (t ∷ ts) = elim (free_in_table t) [
  | some i ↦ some i
  | none ↦ elim (get_free_sft ts) [ none ↦ none | some i ↦ some (length t + i) ]
]
