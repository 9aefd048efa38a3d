-- ===== src/Share/Open/Agreement.antt =====
-- share/share.c: all entries in use for one file remember the same first open, so the check of
-- `do_open_check` against the first of them it meets is a check against any of them.
use fdkernel.Common.{
  ℕ, zero, suc, ◌+◌, ◌<◌, ◌≡◌, ◌≢◌, ◌⊎◌, inl, inr, refl, true, List, [], ◌∷◌, arith, ◌==◌, length,
  get_or, set, All-get_or, Option, some, none, ℤ, pos, ℕ_discrete, Option-cases, Bool-cases, ◌∙◌,
  ap, sym, length-set, get_or-set_self, get_or-set_ne,
}
use fdkernel.Share.State.{File, Share, file_at, first_byte, name_size, raise_critical, blank_file}
use fdkernel.Share.Names.{fnmatches, text, text-copy_name, fnmatches_iff}
use fdkernel.Share.Modes.{Verdict, verdict, open_action, is_compatible, proceed-IsCompatible}
use fdkernel.Share.Open.{
  find_open, conclude, find_unused, open_check, store_file, requested, valid_openmode,
  valid_sharemode,
}
use fdkernel.Share.Open.Outcome.{
  IsEntry, IsWellFormed, blank-IsEntry, unused_of_find, FirstOpen, do_open_check_form,
  free_file_table_entry-unused, conclude-Elsewhere, Elsewhere,
}

abbrev pub IsLive : File → Type 0
IsLive f = first_byte f.filename ≢ 0

-- The loop finds an entry in use with the name, other than the one that is checked.
pub find_open-some :
    (n : ℕ) (name : List ℕ) (i : ℕ) (fs : List File) (p : File)
    → find_open n name i fs ≡ some p
    → (k : ℕ) × (i + k ≢ n)
      × (get_or fs k blank_file ≡ p)
      × IsLive p
      × (text p.filename ≡ text name)
unfolding find_open
find_open-some n name i [] p e = absurd (cc)
find_open-some n name i (q ∷ qs) p e = elim (Bool-cases (i == n)) [
  | inl own ↦ later (find_open-some n name (suc i) qs p (ground arith))
  | inr other ↦ elim (Bool-cases (first_byte q.filename == 0)) [
    | inl unused ↦ later (find_open-some n name (suc i) qs p (ground arith))
    | inr live ↦ elim (Bool-cases (fnmatches q.filename name)) [
      | inr differs ↦ later (find_open-some n name (suc i) qs p (ground arith))
      | inl fits ↦
          let same : q ≡ p = ground arith in
          (
            0,
            ground arith,
            same,
            rw (← same) (ground arith),
            rw (← same) ((fnmatches_iff q.filename name).0 fits),
          )
    ]
  ]
]
  where
    later :
        (k : ℕ) × (suc i + k ≢ n)
          × (get_or qs k blank_file ≡ p)
          × IsLive p
          × (text p.filename ≡ text name)
        → (k : ℕ) × (i + k ≢ n)
          × (get_or (q ∷ qs) k blank_file ≡ p)
          × IsLive p
          × (text p.filename ≡ text name)
    later (k, ne, at, live, same) = (suc k, omega arith, at, live, same)

-- If it finds none, there is none.
find_open-none :
    (n : ℕ) (name : List ℕ) (i : ℕ) (fs : List File)
    → find_open n name i fs ≡ none
    → (k : ℕ) → i + k ≢ n
    → IsLive (get_or fs k blank_file)
    → text (get_or fs k blank_file).filename ≢ text name
unfolding find_open
find_open-none n name i [] e k ne live = absurd (live refl)
find_open-none n name i (q ∷ qs) e zero ne live = ground (arith, fnmatches_iff q.filename name)
find_open-none n name i (q ∷ qs) e (suc k) ne live =
    find_open-none n name (suc i) qs (ground (arith, fnmatches_iff q.filename name)) k (omega arith)
      live

abbrev pub SameFirst : File → File → Type 0
SameFirst p q = (p.first_sharemode ≡ q.first_sharemode) × (p.first_openmode ≡ q.first_openmode)

-- Entries in use for one file remember the same first open.
abbrev pub Agree : Share → Type 0
Agree s =
    (i j : ℕ)
    → IsLive (file_at s i)
    → IsLive (file_at s j)
    → text (file_at s i).filename ≡ text (file_at s j).filename
    → SameFirst (file_at s i) (file_at s j)

-- Only the entry `n` has to be looked at when the others stay.
pub Agree-Elsewhere :
    (n : ℕ) (s t : Share)
    → Elsewhere n s t
    → Agree s
    → ((k : ℕ)
        → n ≢ k
        → IsLive (file_at s k)
        → IsLive (file_at t n)
        → text (file_at s k).filename ≡ text (file_at t n).filename
        → SameFirst (file_at s k) (file_at t n))
    → Agree t
Agree-Elsewhere n s t other a new i j li lj e = elim (ℕ_discrete n i) [
  | yes ni ↦ elim (ℕ_discrete n j) [
    | yes nj ↦
        let ij : i ≡ j = sym ni ∙ nj in
        (ap (λ k. (file_at t k).first_sharemode) ij, ap (λ k. (file_at t k).first_openmode) ij)
    | no nj ↦
        let same = new j nj (rw (← other.2 j nj) lj) (rw ni li) (rw (ni, ← other.2 j nj) (sym e)) in
        rw (← ni, other.2 j nj) (sym same.0, sym same.1)
  ]
  | no ni ↦ elim (ℕ_discrete n j) [
    | yes nj ↦
        rw (← nj, other.2 i ni)
          (new i ni (rw (← other.2 i ni) li) (rw nj lj) (rw (nj, ← other.2 i ni) e))
    | no nj ↦
        rw (other.2 i ni, other.2 j nj)
          (a i j (rw (← other.2 i ni) li) (rw (← other.2 j nj) lj)
            (rw (← other.2 i ni, ← other.2 j nj) e))
  ]
]

-- With or without an earlier open of the name, the verdict and the remembered first open are
-- those of every other entry in use for the name.
module _ (n : ℕ) (s : Share) (f g : File) (v : Verdict) (a : Agree s) where
  against_all :
      (o : Option File)
      → find_open n f.filename 0 (set s.file_table n f) ≡ o
      → FirstOpen o f g v
      → (k : ℕ) → n ≢ k
      → IsLive (file_at s k)
      → text (file_at s k).filename ≡ text f.filename
      → SameFirst (file_at s k) g
        × (v
            ≡ verdict (
                open_action
                  (file_at s k).first_sharemode
                  (file_at s k).first_openmode
                  f.sharemode
                  f.openmode))
  against_all none o first k ne live e =
      let kept = get_or-set_ne s.file_table n k f blank_file ne in
      absurd (
        find_open-none n f.filename 0 (set s.file_table n f) o k (omega arith) (rw kept live)
          (rw kept e))
  against_all (some p) o first k ne live e =
      let (m, away, at, livep, samep) = find_open-some n f.filename 0 (set s.file_table n f) p o in
      let kept = get_or-set_ne s.file_table n m f blank_file (omega arith) in
      let atp : file_at s m ≡ p = sym kept ∙ at in
      let agreed = a k m live (rw atp livep) (rw atp (e ∙ sym samep)) in ground (arith, agreed, atp)

  checked :
      FirstOpen (find_open n f.filename 0 (set s.file_table n f)) f g v
      → (k : ℕ) → n ≢ k
      → IsLive (file_at s k)
      → text (file_at s k).filename ≡ text f.filename
      → SameFirst (file_at s k) g
        × (v
            ≡ verdict (
                open_action
                  (file_at s k).first_sharemode
                  (file_at s k).first_openmode
                  f.sharemode
                  f.openmode))
  checked first = against_all (find_open n f.filename 0 (set s.file_table n f)) refl first

conclude-Agree :
    (v : Verdict) (n : ℕ) (s : Share) (g : File)
    → n < length s.file_table
    → Agree s
    → ((k : ℕ)
        → n ≢ k
        → IsLive (file_at s k)
        → text (file_at s k).filename ≡ text g.filename
        → SameFirst (file_at s k) g)
    → Agree (conclude v n (store_file s n g)).1
unfolding conclude raise_critical
conclude-Agree Verdict.proceed n s g h a new =
    Agree-Elsewhere n s (store_file s n g) (conclude-Elsewhere Verdict.proceed n s g) a
      (rw (get_or-set_self s.file_table n g blank_file h) (λ k ne live _ e. new k ne live e))
conclude-Agree Verdict.denied n s g h a new =
    Agree-Elsewhere n s (conclude Verdict.denied n (store_file s n g)).1
      (conclude-Elsewhere Verdict.denied n s g) a
      (λ k ne live dead e. absurd (
        dead
          (free_file_table_entry-unused n (store_file s n g) (rw (length-set s.file_table n g) h))))
conclude-Agree Verdict.violation n s g h a new =
    Agree-Elsewhere n s (conclude Verdict.violation n (store_file s n g)).1
      (conclude-Elsewhere Verdict.violation n s g) a
      (λ k ne live dead e. absurd (
        dead
          (free_file_table_entry-unused n (store_file s n g) (rw (length-set s.file_table n g) h))))

-- `open_check` keeps the agreement of the entries of one file about its first open, whether it
-- accepts or refuses.
pub open_check-Agree :
    (filename : List ℕ) (psp om sm : ℕ) (s : Share)
    → Agree s
    → Agree (open_check filename psp om sm s).1
unfolding open_check
open_check-Agree filename psp om sm s a = elim (Option-cases (find_unused 0 s.file_table)) [
  | inl e ↦ rw (e, open_check) a
  | inr (n, e) ↦
      let (below, unused) = unused_of_find s.file_table n e in
      let f : File = requested filename psp om sm (file_at s n) in
      let (g, v, same, kept, first) = do_open_check_form n s f below in
      let agrees = checked n s f g v a first in
      rw (e, open_check)
        (rw same
          (conclude-Agree v n s g below a (λ k ne live t. (agrees k ne live (rw (← kept.0) t)).0)))
]

-- Only the verdict to proceed yields an entry's number.
proceed_of_pos :
    (v : Verdict) (n : ℕ) (s : Share) (slot : ℕ)
    → (conclude v n s).0 ≡ pos slot
    → v ≡ Verdict.proceed
unfolding conclude
proceed_of_pos Verdict.proceed n s slot e = refl
proceed_of_pos Verdict.denied n s slot e = absurd (cc)
proceed_of_pos Verdict.violation n s slot e = absurd (cc)

pub valid_openmode_bound : (om : ℕ) → valid_openmode om < 3
valid_openmode_bound om = ground arith

pub valid_sharemode_bound : (sm : ℕ) → valid_sharemode sm < 5
valid_sharemode_bound sm = ground arith

compatible_or :
    (fs fo cs co : ℕ)
    → fs < 5
    → fo < 3
    → cs < 5
    → co < 3
    → verdict (open_action fs fo cs co) ≡ Verdict.proceed
    → (fs ≡ 0) ⊎ ((cs ≡ 0) ⊎ (is_compatible fs fo cs co ≡ true))
compatible_or fs fo cs co hfs hfo hcs hco h = elim (ℕ_discrete fs 0) [
  | yes f0 ↦ inl f0
  | no f1 ↦ elim (ℕ_discrete cs 0) [
    | yes c0 ↦ inr (inl c0)
    | no c1 ↦
        inr (inr (proceed-IsCompatible fs fo cs co hfs hfo hcs hco (omega arith) (omega arith) h))
  ]
]

-- If `open_check` accepts an open of a name of less than 128 bytes, then for every entry in use with
-- this name the tables say "proceed" for the first open that the entry remembers; and unless that
-- open or the new one is in compatibility mode, neither of the two denies the access that the other
-- asks for.
pub open_check-compatible :
    (filename : List ℕ) (psp om sm : ℕ) (s t : Share) (slot j : ℕ)
    → length filename < name_size
    → IsWellFormed s
    → Agree s
    → open_check filename psp om sm s ≡ (pos slot, t)
    → IsLive (file_at s j)
    → text (file_at s j).filename ≡ text filename
    → (verdict (
          open_action
            (file_at s j).first_sharemode
            (file_at s j).first_openmode
            (valid_sharemode sm)
            (valid_openmode om))
        ≡ Verdict.proceed)
      × (((file_at s j).first_sharemode ≡ 0)
          ⊎ ((valid_sharemode sm ≡ 0)
              ⊎ (is_compatible
                    (file_at s j).first_sharemode
                    (file_at s j).first_openmode
                    (valid_sharemode sm)
                    (valid_openmode om)
                  ≡ true)))
unfolding open_check
open_check-compatible filename psp om sm s t slot j short wf a ok live e =
    elim (Option-cases (find_unused 0 s.file_table)) [
      | inl no_room ↦ absurd (let clash = rw (no_room, open_check) at ok in cc)
      | inr (n, found) ↦
          let (below, unused) = unused_of_find s.file_table n found in
          let old = All-get_or IsEntry s.file_table n blank_file wf blank-IsEntry in
          let entry = All-get_or IsEntry s.file_table j blank_file wf blank-IsEntry in
          let f : File = requested filename psp om sm (file_at s n) in
          let (g, v, same, kept, first) = do_open_check_form n s f below in
          let named : text f.filename ≡ text filename =
            text-copy_name name_size filename (file_at s n).filename short (omega arith) in
          let away : n ≢ j = λ nj. live (rw (← nj) unused) in
          let agreed = (checked n s f g v a first j away live (e ∙ sym named)).1 in
          let result : conclude v n (store_file s n g) ≡ (pos slot, t) =
            sym same ∙ rw (found, open_check) at ok in
          let proceeds =
            sym agreed
            ∙ proceed_of_pos v n (store_file s n g) slot (ap (λ (r : ℤ × Share). r.0) result) in
          (
            proceeds,
            compatible_or (file_at s j).first_sharemode (file_at s j).first_openmode
                (valid_sharemode sm) (valid_openmode om) entry.4 entry.3 (valid_sharemode_bound sm)
                (valid_openmode_bound om) proceeds,
          )
    ]
