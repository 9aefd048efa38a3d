-- ===== src/Handles/Calls.antt =====
-- kernel/dosfns.c: opening, closing and duplicating handles. What the code below these functions
-- answers (the path, the file system, the redirector, SHARE and the drivers) is an argument.
use fdkernel.Common.{
  ℕ, ◌+◌, ◌/◌, ◌%◌, ◌^◌, Bool, true, false, not, ◌&&◌, ◌||◌, Option, none, some, ℤ, pos, negsuc,
  ◌==◌, if◌then◌else◌, set, get_or, ◌∷◌,
}
use fdkernel.Handles.State.{
  Files, Sft, SftKind, no_file, find_sft, put_sft, idx_to_sft, get_sft_idx, get_free_hndl,
}

abbrev pub success : ℤ
success = pos 0

abbrev pub de_toomany : ℤ
de_toomany = negsuc 3

abbrev pub de_access : ℤ
de_access = negsuc 4

abbrev pub de_invldhndl : ℤ
de_invldhndl = negsuc 5

abbrev pub de_invldacc : ℤ
de_invldacc = negsuc 11

abbrev pub is_success : ℤ → Bool
is_success (pos n) = n == 0
is_success (negsuc n) = false

abbrev pub is_negative : ℤ → Bool
is_negative (pos n) = false
is_negative (negsuc n) = true

-- What is answered while a file is closed: by the redirector, with the count that it makes of
-- another, by the driver of a device, by `dos_close`, and whether SHARE is there.
pub record CloseAnswers : Type 0 where
  pub redirector : ℤ
  pub count_left : ℕ → ℕ
  pub device_closed : Bool
  pub closed : ℤ
  pub share_installed : Bool

abbrev pub update : ℕ → Sft → Files → Files
update i x s = record s { tables = put_sft s.tables i x }

abbrev pub increment : Sft → Sft
increment x = record x { sft_count = (x.sft_count + 1) % 2 ^ 16 }

abbrev pub decrement : Sft → Sft
decrement x = record x { sft_count = (x.sft_count + 65535) % 2 ^ 16 }

abbrev pub log_share : ℤ → Files → Files
log_share (pos n) s = record s { share_closed = pos n ∷ s.share_closed }
log_share (negsuc n) s = s

abbrev pub drop_file : CloseAnswers → ℕ → Sft → Files → Files
drop_file a i x s =
    if (x.sft_count == 1) && a.share_installed
    then update i (decrement (record x { sft_shroff = negsuc 0 })) (log_share x.sft_shroff s)
    else update i (decrement x) s

unfoldable pub close_sft : CloseAnswers → Bool → ℕ → SftKind → Sft → Files → ℤ × Files
close_sft a commitonly i SftKind.shared x s =
    (a.redirector, update i (record x { sft_count = a.count_left x.sft_count }) s)
close_sft a commitonly i (SftKind.device focrm) x s =
    if focrm && not a.device_closed
    then (de_invldhndl, s)
    else (success, if commitonly then s else update i (decrement x) s)
close_sft a commitonly i SftKind.file x s =
    if commitonly || not (is_success a.closed) then (a.closed, s) else (success, drop_file a i x s)

unfoldable pub dos_close_sft : CloseAnswers → Bool → ℕ → Files → ℤ × Files
dos_close_sft a commitonly i s = elim (idx_to_sft s i) [
  | none ↦ (de_invldhndl, s)
  | some x ↦ close_sft a commitonly i x.sft_flags x s
]

abbrev pub forget : ℕ → ℕ → Files → Files
forget hndl v s = record s { filetab = set s.filetab hndl v }

abbrev pub close_idx : CloseAnswers → ℕ → Option ℕ → Files → ℤ × Files
close_idx a hndl none s = (de_invldhndl, s)
close_idx a hndl (some i) s =
    let rest = dos_close_sft a false i (forget hndl no_file s) in
    elim (idx_to_sft s i) [ none ↦ (de_invldhndl, s) | some x ↦ rest ]

unfoldable pub dos_close : CloseAnswers → ℕ → Files → ℤ × Files
dos_close a hndl s = close_idx a hndl (get_sft_idx s hndl) s

-- The last two statements of `DosForceDup`; `i` is the entry that `Sftp` points to.
abbrev pub bump : ℕ → Option Sft → Files → Files
bump i none s = s
bump i (some x) s = update i (increment x) s

unfoldable pub duplicate : ℕ → ℕ → ℕ → Files → Files
duplicate i old new s = bump i (find_sft s.tables i) (forget new (get_or s.filetab old no_file) s)

abbrev pub after_close : ℕ → ℕ → ℕ → ℤ × Files → ℤ × Files
after_close i old new (code, s) =
    if is_success code then (success, duplicate i old new s) else (code, s)

abbrev pub force_dup_idx : CloseAnswers → ℕ → ℕ → Option ℕ → Files → ℤ × Files
force_dup_idx a old new none s = (de_invldhndl, s)
force_dup_idx a old new (some i) s =
    let copy : ℤ × Files =
      if get_or s.filetab new no_file == no_file
      then (success, duplicate i old new s)
      else after_close i old new (dos_close a new s) in
    elim (idx_to_sft s i) [ none ↦ (de_invldhndl, s) | some x ↦ copy ]

unfoldable pub dos_force_dup : CloseAnswers → ℕ → ℕ → Files → ℤ × Files
dos_force_dup a old new s = force_dup_idx a old new (get_sft_idx s old) s

abbrev pub dup_result : ℕ → ℤ × Files → ℤ × Files
dup_result new (code, s) = (if is_negative code then de_invldhndl else pos new, s)

unfoldable pub dos_dup : CloseAnswers → ℕ → Files → ℤ × Files
dos_dup a hndl s = elim (get_free_hndl s) [
  | none ↦ (de_toomany, s)
  | some new ↦ dup_result new (dos_force_dup a hndl new s)
]

abbrev pub no_inherit : Sft → Bool
no_inherit x = x.sft_mode / 2 ^ 7 % 2 == 1

abbrev pub clone_idx : Option ℕ → Files → ℤ × Files
clone_idx none s = (de_invldhndl, s)
clone_idx (some i) s = elim (idx_to_sft s i) [
  | none ↦ (de_invldhndl, s)
  | some x ↦ if no_inherit x then (de_invldhndl, s) else (success, update i (increment x) s)
]

-- `CloneHandle`: the same handle of a child process is a further holder of the file.
unfoldable pub clone_handle : ℕ → Files → ℤ × Files
clone_handle hndl s = clone_idx (get_sft_idx s hndl) s
