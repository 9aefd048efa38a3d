-- ===== src/Share/Open/Outcome.antt =====
-- share/share.c: what `open_check` returns, and what it leaves of the file table.
use fdkernel.Common.{
  ℕ, suc, ◌+◌, ◌<◌, ◌≡◌, ◌≢◌, ◌⊎◌, inl, inr, refl, List, [], ◌∷◌, arith, ◌==◌, length, get_or, set,
  All, All-get_or, Option, some, none, ℤ, pos, negsuc, Option-cases, Bool-cases, ◌∙◌, ap,
  length-set, get_or-set_self, get_or-set_ne, set-set,
}
use fdkernel.Share.State.{
  File, Share, file_at, first_byte, name_size, free_file_table_entry, raise_critical, blank_file,
  clear_name,
}
use fdkernel.Share.Names.{text, text-copy_name}
use fdkernel.Share.Modes.{Verdict, verdict, open_action}
use fdkernel.Share.Open.{
  find_open, conclude, check_entry, do_open_check, find_unused, open_check, store_file, requested,
  valid_openmode, valid_sharemode,
}

-- `find_unused` yields an unused entry of the table.
find_unused_lem :
    (i : ℕ) (fs : List File) (n : ℕ)
    → find_unused i fs ≡ some n
    → (k : ℕ) × (n ≡ i + k) × (k < length fs) × (first_byte (get_or fs k blank_file).filename ≡ 0)
unfolding find_unused
find_unused_lem i [] n e = absurd (cc)
find_unused_lem i (p ∷ ps) n e = elim (Bool-cases (first_byte p.filename == 0)) [
  | inl free ↦ (0, ground arith, omega arith, ground arith)
  | inr live ↦
      let (k, at, below, unused) = find_unused_lem (suc i) ps n (ground arith) in
      (suc k, omega arith, omega arith, unused)
]

pub unused_of_find :
    (fs : List File) (n : ℕ)
    → find_unused 0 fs ≡ some n
    → (n < length fs) × (first_byte (get_or fs n blank_file).filename ≡ 0)
unused_of_find fs n e =
    let (k, at, below, unused) = find_unused_lem 0 fs n e in
    let same : n ≡ k = omega arith in rw same (below, unused)

-- Every entry is in use when there is no unused one.
pub live_of_find :
    (i : ℕ) (fs : List File)
    → find_unused i fs ≡ none
    → All (λ (p : File). first_byte p.filename ≢ 0) fs
unfolding find_unused
live_of_find i [] e = tt
live_of_find i (p ∷ ps) e = (ground arith, live_of_find (suc i) ps (ground arith))

-- A state in which every name is a full array and every recorded mode is one of the tables'.
abbrev pub IsEntry : File → Type 0
IsEntry f =
    (length f.filename ≡ name_size)
    × (f.openmode < 3)
    × (f.sharemode < 5)
    × (f.first_openmode < 3)
    × (f.first_sharemode < 5)

abbrev pub IsWellFormed : Share → Type 0
IsWellFormed s = All IsEntry s.file_table

-- What an accepted open leaves in its entry.
abbrev pub Accepted : List ℕ → ℕ → ℕ → ℕ → File → Type 0
Accepted filename psp openmode sharemode f =
    (text f.filename ≡ text filename)
    × (f.psp ≡ psp)
    × (f.openmode ≡ valid_openmode openmode)
    × (f.sharemode ≡ valid_sharemode sharemode)

-- The result code, what stands in the entry, and whether an interrupt 24h was raised.
abbrev pub Outcome : List ℕ → ℕ → ℕ → ℕ → ℕ → Share → ℤ × Share → Type 0
Outcome filename psp openmode sharemode slot s (r, t) =
    ((r ≡ pos slot)
      × Accepted filename psp openmode sharemode (file_at t slot)
      × (t.criticals ≡ s.criticals))
    ⊎ ((r ≡ negsuc 4) × (first_byte (file_at t slot).filename ≡ 0) × (t.criticals ≡ s.criticals))
    ⊎ ((r ≡ negsuc 31)
        × (first_byte (file_at t slot).filename ≡ 0)
        × (length t.criticals ≡ suc (length s.criticals)))

-- All but the entry `slot` is as before.
abbrev pub Elsewhere : ℕ → Share → Share → Type 0
Elsewhere slot s t =
    (length t.file_table ≡ length s.file_table)
    × (t.lock_table ≡ s.lock_table)
    × ((j : ℕ) → slot ≢ j → file_at t j ≡ file_at s j)

pub blank-IsEntry : IsEntry blank_file
blank-IsEntry = omega arith

pub store_file-Elsewhere : (s : Share) (n : ℕ) (f : File) → Elsewhere n s (store_file s n f)
store_file-Elsewhere s n f =
    (length-set s.file_table n f, refl, λ j h. get_or-set_ne s.file_table n j f blank_file h)

Elsewhere-trans : (n : ℕ) (s t u : Share) → Elsewhere n s t → Elsewhere n t u → Elsewhere n s u
Elsewhere-trans n s t u h k = (k.0 ∙ h.0, k.1 ∙ h.1, λ j p. k.2 j p ∙ h.2 j p)

pub conclude-Elsewhere :
    (v : Verdict) (n : ℕ) (s : Share) (f : File) → Elsewhere n s (conclude v n (store_file s n f)).1
unfolding conclude free_file_table_entry raise_critical
conclude-Elsewhere Verdict.proceed n s f = store_file-Elsewhere s n f
conclude-Elsewhere Verdict.denied n s f =
    let t : Share = store_file s n f in
    let c : File = clear_name (file_at t n) in
    Elsewhere-trans n s t (store_file t n c) (store_file-Elsewhere s n f)
      (store_file-Elsewhere t n c)
conclude-Elsewhere Verdict.violation n s f =
    let t : Share = store_file s n f in
    let c : File = clear_name (file_at t n) in
    Elsewhere-trans n s t (store_file t n c) (store_file-Elsewhere s n f)
      (store_file-Elsewhere t n c)

pub first_byte-set : (xs : List ℕ) → first_byte (set xs 0 0) ≡ 0
first_byte-set [] = refl
first_byte-set (x ∷ xs) = refl

-- A freed entry is an unused one.
pub free_file_table_entry-unused :
    (n : ℕ) (s : Share)
    → n < length s.file_table
    → first_byte (file_at (free_file_table_entry n s) n).filename ≡ 0
unfolding free_file_table_entry
free_file_table_entry-unused n s h =
    rw (get_or-set_self s.file_table n (clear_name (file_at s n)) blank_file h)
      (first_byte-set (file_at s n).filename)

conclude-Outcome :
    (v : Verdict) (filename : List ℕ) (psp om sm n : ℕ) (s : Share) (f : File)
    → n < length s.file_table
    → Accepted filename psp om sm f
    → Outcome filename psp om sm n s (conclude v n (store_file s n f))
unfolding conclude raise_critical
conclude-Outcome Verdict.proceed filename psp om sm n s f h a =
    inl (refl, rw (get_or-set_self s.file_table n f blank_file h) a, refl)
conclude-Outcome Verdict.denied filename psp om sm n s f h a =
    inr (inl (refl, unused, unfold free_file_table_entry in refl))
  where
    unused : first_byte (file_at (free_file_table_entry n (store_file s n f)) n).filename ≡ 0
    unused = free_file_table_entry-unused n (store_file s n f) (rw (length-set s.file_table n f) h)
conclude-Outcome Verdict.violation filename psp om sm n s f h a = inr (inr (refl, unused, refl))
  where
    unused : first_byte (file_at (free_file_table_entry n (store_file s n f)) n).filename ≡ 0
    unused = free_file_table_entry-unused n (store_file s n f) (rw (length-set s.file_table n f) h)

-- `g` is `f` but for the two fields that remember the first open.
abbrev pub SameRequest : File → File → Type 0
SameRequest f g =
    (g.filename ≡ f.filename)
    × (g.psp ≡ f.psp)
    × (g.openmode ≡ f.openmode)
    × (g.sharemode ≡ f.sharemode)

-- `do_open_check` as the entry that it stores and the verdict that it reaches, with the first
-- other open of the name, if there is one, deciding both.
abbrev pub FirstOpen : Option File → File → File → Verdict → Type 0
FirstOpen none f g v =
    (v ≡ Verdict.proceed) × (g.first_openmode ≡ f.openmode) × (g.first_sharemode ≡ f.sharemode)
FirstOpen (some p) f g v =
    (v ≡ verdict (open_action p.first_sharemode p.first_openmode f.sharemode f.openmode))
    × (g.first_openmode ≡ p.first_openmode)
    × (g.first_sharemode ≡ p.first_sharemode)

pub do_open_check_form :
    (n : ℕ) (s : Share) (f : File)
    → n < length s.file_table
    → (g : File) × (v : Verdict) × (do_open_check n (store_file s n f)
        ≡ conclude v n (store_file s n g))
      × SameRequest f g
      × FirstOpen (find_open n f.filename 0 (set s.file_table n f)) f g v
do_open_check_form n s f h =
    let entry : do_open_check n (store_file s n f) ≡ check_entry f n (store_file s n f) =
      unfold do_open_check in
      ap (λ g. check_entry g n (store_file s n f))
        (get_or-set_self s.file_table n f blank_file h) in
    elim (Option-cases (find_open n f.filename 0 (set s.file_table n f))) [
      | inl e ↦ (
        record f { first_openmode = f.openmode; first_sharemode = f.sharemode },
        Verdict.proceed,
        rw entry (unfold check_entry in rw (e, check_entry) (rw set-set)),
        (refl, refl, refl, refl),
        rw e (refl, refl, refl),
      )
      | inr (p, e) ↦ (
        record f { first_openmode = p.first_openmode; first_sharemode = p.first_sharemode },
        verdict (open_action p.first_sharemode p.first_openmode f.sharemode f.openmode),
        rw entry (unfold check_entry in rw (e, check_entry) (rw set-set)),
        (refl, refl, refl, refl),
        rw e (refl, refl, refl),
      )
    ]

-- The entry that `open_check` fills in holds the request.
requested-Accepted :
    (filename : List ℕ) (psp om sm : ℕ) (f : File)
    → length filename < name_size
    → length f.filename ≡ name_size
    → Accepted filename psp om sm (requested filename psp om sm f)
requested-Accepted filename psp om sm f h e =
    (text-copy_name name_size filename f.filename h (omega arith), refl, refl, refl)

SameRequest-Accepted :
    (filename : List ℕ) (psp om sm : ℕ) (f g : File)
    → SameRequest f g
    → Accepted filename psp om sm f
    → Accepted filename psp om sm g
SameRequest-Accepted filename psp om sm f g e a =
    (ap text e.0 ∙ a.0, e.1 ∙ a.1, e.2 ∙ a.2, e.3 ∙ a.3)

-- `open_check` either finds no unused entry, returns -1 and changes nothing, or it works on one
-- unused entry: it leaves every other entry and all locks alone, and it returns the entry's
-- number with the request recorded there, or -5, or -32 with one interrupt 24h raised, and then
-- the entry is unused again. The name fits the array.
pub open_check-Outcome :
    (filename : List ℕ) (psp om sm : ℕ) (s : Share)
    → length filename < name_size
    → IsWellFormed s
    → ((open_check filename psp om sm s ≡ (negsuc 0, s))
        × All (λ (p : File). first_byte p.filename ≢ 0) s.file_table)
      ⊎ ((slot : ℕ) × (slot < length s.file_table)
          × (first_byte (file_at s slot).filename ≡ 0)
          × Outcome filename psp om sm slot s (open_check filename psp om sm s)
          × Elsewhere slot s (open_check filename psp om sm s).1)
unfolding open_check
open_check-Outcome filename psp om sm s short wf =
    elim (Option-cases (find_unused 0 s.file_table)) [
      | inl e ↦ inl (rw (e, open_check), live_of_find 0 s.file_table e)
      | inr (n, e) ↦
          let (below, unused) = unused_of_find s.file_table n e in
          let old = All-get_or IsEntry s.file_table n blank_file wf blank-IsEntry in
          let f : File = requested filename psp om sm (file_at s n) in
          let (g, v, same, kept, _) = do_open_check_form n s f below in
          let a =
            SameRequest-Accepted filename psp om sm f g kept
              (requested-Accepted filename psp om sm (file_at s n) short old.0) in
          inr (
            n,
            below,
            unused,
            rw (e, open_check) (rw same (conclude-Outcome v filename psp om sm n s g below a)),
            rw (e, open_check) (rw same (conclude-Elsewhere v n s g)),
          )
    ]
