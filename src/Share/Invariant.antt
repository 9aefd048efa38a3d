-- ===== src/Share/Invariant.antt =====
-- share/share.c: what every call of the interrupt handler keeps.
use fdkernel.Common.{
  ℕ, ◌/◌, ◌%◌, ◌≡◌, ◌<◌, ◌||◌, ltb, if◌then◌else◌, true, refl, Bool, List, arith, ◌==◌, ◌∙◌, ap,
  inl, inr, length, set, All, All-set, All-get_or, All-replicate, subst, Option, some, none, ℤ,
  negsuc, Option-cases, length-set, get_or_outside, get_or-replicate, dec_lt,
}
use fdkernel.Share.State.{
  File, Lock, Share, init, file_at, blank_file, first_byte, sizeof_file, clear_name, name_size,
  free_file_table_entry, raise_critical,
}
use fdkernel.Share.Names.{text, length-copy_name}
use fdkernel.Share.Modes.{Verdict}
use fdkernel.Share.Open.{
  open_check, close_file, remove_all_locks, find_unused, requested, conclude, store_file, find_open,
}
use fdkernel.Share.Open.Outcome.{
  IsEntry, IsWellFormed, blank-IsEntry, unused_of_find, SameRequest, FirstOpen, do_open_check_form,
  free_file_table_entry-unused, store_file-Elsewhere,
}
use fdkernel.Share.Open.Agreement.{
  IsLive, Agree, Agree-Elsewhere, open_check-Agree, find_open-some, valid_openmode_bound,
  valid_sharemode_bound,
}
use fdkernel.Share.Locks.{
  access_check, lock_unlock, or_code, endofs, clipped_len, release_lock, insert_lock, new_lock,
}
use fdkernel.Share.Open.Closed.{Closed, Closed-dead, open_check-Closed}
use fdkernel.Share.Handler.{Regs, handler2f, dword, al}

-- Entries have full arrays, closed names and modes of the tables; entries in use for one file
-- remember the same first open.
pub record Inv (s : Share) : Type 0 where
  pub well_formed : IsWellFormed s
  pub agree : Agree s
  pub closed : Closed s

clear_name-IsEntry : (f : File) → IsEntry f → IsEntry (clear_name f)
clear_name-IsEntry f e = (length-set f.filename 0 0 ∙ e.0, e.1, e.2, e.3, e.4)

-- A freed entry is not in use, also when its number lies outside the table.
free_dead : (n : ℕ) (s : Share) → ¬ IsLive (file_at (free_file_table_entry n s) n)
unfolding free_file_table_entry
free_dead n s live = elim (dec_lt n (length s.file_table)) [
  | yes h ↦ live (free_file_table_entry-unused n s h)
  | no h ↦
      let t = set s.file_table n (clear_name (file_at s n)) in
      live (
        ap (λ (f : File). first_byte f.filename)
          (get_or_outside t n blank_file
            (omega (arith, length-set s.file_table n (clear_name (file_at s n))))))
]

pub free_file_table_entry-Inv : (n : ℕ) (s : Share) → Inv s → Inv (free_file_table_entry n s)
unfolding free_file_table_entry
free_file_table_entry-Inv n s v = record {
  well_formed = All-set IsEntry s.file_table n (clear_name (file_at s n)) v.well_formed (
      clear_name-IsEntry (file_at s n)
        (All-get_or IsEntry s.file_table n blank_file v.well_formed blank-IsEntry));
  agree =
      Agree-Elsewhere n s (free_file_table_entry n s)
        (store_file-Elsewhere s n (clear_name (file_at s n))) v.agree
        (λ k ne live dead e. absurd (free_dead n s dead));
  closed =
      Closed-dead n s (free_file_table_entry n s)
        (store_file-Elsewhere s n (clear_name (file_at s n))) v.closed (free_dead n s);
}

raise_critical-Inv : (n code : ℕ) (s : Share) → Inv s → Inv (raise_critical n code s)
unfolding raise_critical
raise_critical-Inv n code s v =
    let w = free_file_table_entry-Inv n s v in
    record { well_formed = w.well_formed; agree = w.agree; closed = w.closed }

-- A change of the locks alone keeps the invariant.
same_files-Inv : (s t : Share) → t.file_table ≡ s.file_table → Inv s → Inv t
same_files-Inv s t e v = record {
  well_formed = rw e v.well_formed;
  agree = rw e v.agree;
  closed = rw e v.closed;
}

blank_short : (i : ℕ) {f : File} → f ≡ blank_file → length (text f.filename) < name_size
unfolding text
blank_short i e = rw e (omega arith)

pub init-Inv : (bytes locks : ℕ) → Inv (init bytes locks)
unfolding init
init-Inv bytes locks = record {
  well_formed = All-replicate IsEntry (bytes / sizeof_file) blank_file blank-IsEntry;
  agree = λ i j li lj e. absurd (
      li (
        ap (λ (f : File). first_byte f.filename)
          (get_or-replicate (bytes / sizeof_file) i blank_file)));
  closed = λ i. blank_short i (get_or-replicate (bytes / sizeof_file) i blank_file);
}

pub close_file-Inv : (n : ℕ) (s : Share) → Inv s → Inv (close_file n s)
unfolding close_file
close_file-Inv n s v =
    free_file_table_entry-Inv n (record s { lock_table = remove_all_locks n s.lock_table })
      (record { well_formed = v.well_formed; agree = v.agree; closed = v.closed })

pub access_check-Inv :
    (psp n ofs len : ℕ) (allow : Bool) (s : Share)
    → Inv s
    → Inv (access_check psp n ofs len allow s).1
unfolding access_check
access_check-Inv psp n ofs len allow s v = ground (arith, raise_critical-Inv n 14 s v)

or_code-files :
    (c : ℤ) (o : Option (List Lock)) (s : Share) → (or_code c o s).1.file_table ≡ s.file_table
unfolding or_code
or_code-files c none s = refl
or_code-files c (some ls) s = refl

lock_unlock-files :
    (psp n ofs len : ℕ) (unlock : Bool) (s : Share)
    → (lock_unlock psp n ofs len unlock s).1.file_table ≡ s.file_table
unfolding lock_unlock
lock_unlock-files psp n ofs len unlock s = ground (
  arith,
  or_code-files (negsuc 32) (release_lock psp n ofs (endofs ofs len) s.lock_table) s,
  or_code-files (negsuc 35) (insert_lock (new_lock psp n ofs (clipped_len ofs len)) s.lock_table) s,
)

conclude-IsWellFormed :
    (v : Verdict) (n : ℕ) (s : Share) → IsWellFormed s → IsWellFormed (conclude v n s).1
unfolding conclude free_file_table_entry raise_critical
conclude-IsWellFormed Verdict.proceed n s w = w
conclude-IsWellFormed Verdict.denied n s w =
    All-set IsEntry s.file_table n (clear_name (file_at s n)) w (
      clear_name-IsEntry (file_at s n)
        (All-get_or IsEntry s.file_table n blank_file w blank-IsEntry))
conclude-IsWellFormed Verdict.violation n s w =
    All-set IsEntry s.file_table n (clear_name (file_at s n)) w (
      clear_name-IsEntry (file_at s n)
        (All-get_or IsEntry s.file_table n blank_file w blank-IsEntry))

requested-IsEntry :
    (filename : List ℕ) (psp om sm : ℕ) (f : File)
    → IsEntry f
    → IsEntry (requested filename psp om sm f)
requested-IsEntry filename psp om sm f e = (
  length-copy_name 128 filename f.filename ∙ e.0,
  valid_openmode_bound om,
  valid_sharemode_bound sm,
  e.3,
  e.4,
)

-- The remembered first open comes from an entry of the table.
checked-IsEntry :
    (n : ℕ) (fs : List File) (f g : File) (v : Verdict)
    → All IsEntry fs
    → IsEntry f
    → SameRequest f g
    → (o : Option File) → find_open n f.filename 0 fs ≡ o
    → FirstOpen o f g v
    → IsEntry g
checked-IsEntry n fs f g v all e same none found first = ground arith
checked-IsEntry n fs f g v all e same (some p) found first =
    let (m, away, at, live, named) = find_open-some n f.filename 0 fs p found in
    let ep : IsEntry p = subst IsEntry at (All-get_or IsEntry fs m blank_file all blank-IsEntry) in
    ground arith

open_check-IsWellFormed :
    (filename : List ℕ) (psp om sm : ℕ) (s : Share)
    → IsWellFormed s
    → IsWellFormed (open_check filename psp om sm s).1
unfolding open_check
open_check-IsWellFormed filename psp om sm s w = elim (Option-cases (find_unused 0 s.file_table)) [
  | inl e ↦ rw (e, open_check) w
  | inr (n, e) ↦
      let (below, unused) = unused_of_find s.file_table n e in
      let old = All-get_or IsEntry s.file_table n blank_file w blank-IsEntry in
      let f : File = requested filename psp om sm (file_at s n) in
      let (g, v, same, kept, first) = do_open_check_form n s f below in
      let ef = requested-IsEntry filename psp om sm (file_at s n) old in
      let eg =
        checked-IsEntry n (set s.file_table n f) f g v (All-set IsEntry s.file_table n f w ef) ef
          kept (find_open n f.filename 0 (set s.file_table n f)) refl first in
      rw (e, open_check)
        (rw same
          (conclude-IsWellFormed v n (store_file s n g) (All-set IsEntry s.file_table n g w eg)))
]

pub open_check-Inv :
    (filename : List ℕ) (psp om sm : ℕ) (s : Share)
    → length filename < name_size
    → Inv s
    → Inv (open_check filename psp om sm s).1
open_check-Inv filename psp om sm s short v = record {
  well_formed = open_check-IsWellFormed filename psp om sm s v.well_formed;
  agree = open_check-Agree filename psp om sm s v.agree;
  closed = open_check-Closed filename psp om sm s short v.well_formed v.closed;
}

abbrev pub InvAfter : Share → Option (Regs × Share) → Type 0
InvAfter s none = Inv s
InvAfter s (some (r, t)) = Inv t

-- The file number of a call: in BX to close a file, and in CX for the checks of an access and the
-- locks.
abbrev pub file_number : Regs → ℕ
file_number r = if al r == 0xa1 then r.bx else r.cx

-- The installation check and an open name no entry.
abbrev pub names_entry : Regs → Share → Bool
names_entry r s = (al r == 0) || ((al r == 0xa0) || ltb (file_number r) (length s.file_table))

-- A call of the handler keeps the invariant of the tables if the file number that it is given is
-- that of an entry, which the code does not check, and a name that it is given has less than 128
-- bytes, so that a copy of it is closed.
pub handler2f-Inv :
    (string_at : ℕ → ℕ → List ℕ) (r : Regs) (s : Share)
    → names_entry r s ≡ true
    → length (string_at r.ds r.si) < name_size
    → Inv s
    → InvAfter s (handler2f string_at r s)
unfolding handler2f
handler2f-Inv string_at r s within short v = ground (
  arith,
  open_check-Inv (string_at r.ds r.si) r.bx r.cx r.dx s short v,
  close_file-Inv r.bx s v,
  access_check-Inv r.bx r.cx (dword r.si r.di) (dword r.es r.dx) (r.ax % 2 == 1) s v,
  same_files-Inv s (lock_unlock r.bx r.cx (dword r.si r.di) (dword r.es r.dx) (r.ax % 2 == 1) s).1
      (lock_unlock-files r.bx r.cx (dword r.si r.di) (dword r.es r.dx) (r.ax % 2 == 1) s) v,
)
