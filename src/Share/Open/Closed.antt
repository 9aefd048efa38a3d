-- ===== src/Share/Open/Closed.antt =====
-- share/share.c: `open_check` of a name that fits leaves every name in the table closed.
use fdkernel.Common.{
  ℕ, ◌≤◌, ◌<◌, ◌≡◌, inl, inr, List, [], ◌∷◌, arith, length, All-get_or, ℕ_discrete, Option-cases,
  length-set, get_or-set_self,
}
use fdkernel.Share.State.{File, Share, file_at, first_byte, name_size, raise_critical, blank_file}
use fdkernel.Share.Names.{text, text-copy_name, text-eq-nil_iff}
use fdkernel.Share.Modes.{Verdict}
use fdkernel.Share.Open.{conclude, find_unused, open_check, store_file, requested}
use fdkernel.Share.Open.Outcome.{
  IsEntry, IsWellFormed, blank-IsEntry, unused_of_find, do_open_check_form,
  free_file_table_entry-unused, conclude-Elsewhere, Elsewhere,
}
use fdkernel.Share.Open.Agreement.{IsLive}

-- Every name in the table is closed by a zero byte within its array.
abbrev pub Closed : Share → Type 0
Closed s = (i : ℕ) → length (text (file_at s i).filename) < name_size

text_le : (s : List ℕ) → length (text s) ≤ length s
unfolding text
text_le [] = omega arith
text_le (c ∷ s) = ground (arith, text_le s)

Closed-Elsewhere :
    (n : ℕ) (s t : Share)
    → Elsewhere n s t
    → Closed s
    → length (text (file_at t n).filename) < name_size
    → Closed t
Closed-Elsewhere n s t other closed here i = elim (ℕ_discrete n i) [
  | yes same ↦ rw (← same) here
  | no apart ↦ rw (other.2 i apart) (closed i)
]

dead-text : (f : File) → ¬ IsLive f → length (text f.filename) < name_size
dead-text f dead = elim (ℕ_discrete (first_byte f.filename) 0) [
  | yes e ↦
      let none_there : text f.filename ≡ [] = (text-eq-nil_iff f.filename).1 e in
      rw none_there (omega arith)
  | no some_there ↦ absurd (dead some_there)
]

pub Closed-dead :
    (n : ℕ) (s t : Share) → Elsewhere n s t → Closed s → ¬ IsLive (file_at t n) → Closed t
Closed-dead n s t other closed dead =
    Closed-Elsewhere n s t other closed (dead-text (file_at t n) dead)

conclude-Closed :
    (v : Verdict) (n : ℕ) (s : Share) (g : File)
    → n < length s.file_table
    → Closed s
    → length (text g.filename) < name_size
    → Closed (conclude v n (store_file s n g)).1
unfolding conclude raise_critical
conclude-Closed Verdict.proceed n s g h closed short =
    Closed-Elsewhere n s (store_file s n g) (conclude-Elsewhere Verdict.proceed n s g) closed
      (rw (get_or-set_self s.file_table n g blank_file h) short)
conclude-Closed Verdict.denied n s g h closed short =
    Closed-dead n s (conclude Verdict.denied n (store_file s n g)).1
      (conclude-Elsewhere Verdict.denied n s g) closed
      (λ live.
        live
          (free_file_table_entry-unused n (store_file s n g) (rw (length-set s.file_table n g) h)))
conclude-Closed Verdict.violation n s g h closed short =
    Closed-dead n s (conclude Verdict.violation n (store_file s n g)).1
      (conclude-Elsewhere Verdict.violation n s g) closed
      (λ live.
        live
          (free_file_table_entry-unused n (store_file s n g) (rw (length-set s.file_table n g) h)))

-- `open_check` of a name that fits keeps the names closed.
pub open_check-Closed :
    (filename : List ℕ) (psp om sm : ℕ) (s : Share)
    → length filename < name_size
    → IsWellFormed s
    → Closed s
    → Closed (open_check filename psp om sm s).1
unfolding open_check
open_check-Closed filename psp om sm s short wf closed =
    elim (Option-cases (find_unused 0 s.file_table)) [
      | inl e ↦ rw (e, open_check) closed
      | inr (n, e) ↦
          let (below, unused) = unused_of_find s.file_table n e in
          let old = All-get_or IsEntry s.file_table n blank_file wf blank-IsEntry in
          let f : File = requested filename psp om sm (file_at s n) in
          let (g, v, same, kept, first) = do_open_check_form n s f below in
          let named : text f.filename ≡ text filename =
            text-copy_name name_size filename (file_at s n).filename short (omega arith) in
          let name_is : text g.filename ≡ text filename = rw kept.0 named in
          rw (e, open_check)
            (rw same
              (conclude-Closed v n s g below closed (rw name_is (omega (arith, text_le filename)))))
    ]
