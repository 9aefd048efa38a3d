-- ===== src/Share/Open.antt =====
-- share/share.c: `open_check`, `do_open_check` and `close_file`.
pub mod Outcome
pub mod Agreement
pub mod Closed
pub mod Close
use fdkernel.Common.{
  ℕ, suc, ◌+◌, ◌%◌, ◌≡◌, Bool, true, false, not, List, [], ◌∷◌, ltb, ◌==◌, if◌then◌else◌, length,
  get_or, set, map, Option, some, none, ℤ, pos, negsuc,
}
use fdkernel.Share.State.{
  File, Lock, Share, file_at, first_byte, name_size, free_file_table_entry, raise_critical,
}
use fdkernel.Share.Names.{fnmatches, copy_name}
use fdkernel.Share.Modes.{
  Verdict, verdict, open_action, share_deny_none, share_compat, open_read_write, open_read_only,
}

abbrev pub store_file : Share → ℕ → File → Share
store_file s fileno f = record s { file_table = set s.file_table fileno f }

-- The loop of `do_open_check` up to its `break`: the first other entry in use with the same name.
unfoldable pub find_open : ℕ → List ℕ → ℕ → List File → Option File
find_open fileno name i [] = none
find_open fileno name i (p ∷ ps) =
    let rest = find_open fileno name (suc i) ps in
    if i == fileno
    then rest
    else if first_byte p.filename == 0
    then rest
    else if fnmatches p.filename name
    then some p
    else rest

-- The `switch` on the action.
unfoldable pub conclude : Verdict → ℕ → Share → ℤ × Share
conclude Verdict.proceed fileno s = (pos fileno, s)
conclude Verdict.denied fileno s = (negsuc 4, free_file_table_entry fileno s)
conclude Verdict.violation fileno s = (negsuc 31, raise_critical fileno 13 s)

-- The check of entry `fileno`, which holds `f`, against the first other open of its name.
unfoldable pub check_entry : File → ℕ → Share → ℤ × Share
unfolding conclude
check_entry f fileno s = elim (find_open fileno f.filename 0 s.file_table) [
  | none ↦ (
    pos fileno,
    store_file s fileno (record f { first_openmode = f.openmode; first_sharemode = f.sharemode }),
  )
  | some p ↦
      conclude (verdict (open_action p.first_sharemode p.first_openmode f.sharemode f.openmode))
        fileno
        (store_file s fileno
          (record f { first_openmode = p.first_openmode; first_sharemode = p.first_sharemode }))
]

unfoldable pub do_open_check : ℕ → Share → ℤ × Share
unfolding check_entry
do_open_check fileno s = check_entry (file_at s fileno) fileno s

abbrev pub valid_sharemode : ℕ → ℕ
valid_sharemode sharemode =
    if ltb share_deny_none (sharemode % 8) then share_compat else sharemode % 8

abbrev pub valid_openmode : ℕ → ℕ
valid_openmode openmode =
    if ltb open_read_write (openmode % 4) then open_read_only else openmode % 4

-- The first unused entry.
unfoldable pub find_unused : ℕ → List File → Option ℕ
find_unused i [] = none
find_unused i (p ∷ ps) =
    let rest = find_unused (suc i) ps in if first_byte p.filename == 0 then some i else rest

-- The entry as `open_check` fills it in, before the sharing check.
abbrev pub requested : List ℕ → ℕ → ℕ → ℕ → File → File
requested filename psp openmode sharemode f = record f {
  filename = copy_name name_size filename f.filename;
  psp = psp;
  openmode = valid_openmode openmode;
  sharemode = valid_sharemode sharemode;
}

unfoldable pub open_check : List ℕ → ℕ → ℕ → ℕ → Share → ℤ × Share
unfolding do_open_check
open_check filename psp openmode sharemode s = elim (find_unused 0 s.file_table) [
  | none ↦ (negsuc 0, s)
  | some fileno ↦
      do_open_check fileno
        (store_file s fileno (requested filename psp openmode sharemode (file_at s fileno)))
]

unfoldable pub remove_all_locks : ℕ → List Lock → List Lock
remove_all_locks fileno [] = []
remove_all_locks fileno (l ∷ ls) =
    (if l.fileno == fileno then record l { used = false } else l) ∷ remove_all_locks fileno ls

unfoldable pub close_file : ℕ → Share → Share
unfolding remove_all_locks
close_file fileno s =
    free_file_table_entry fileno (record s { lock_table = remove_all_locks fileno s.lock_table })
