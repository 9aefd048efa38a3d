-- ===== src/Handles/Step.antt =====
-- The calls of kernel/dosfns.c on handles as the steps of a machine.
use fdkernel.Common.{
  ℕ, ◌≤◌, ◌≡◌, inl, inr, refl, some, ◌==◌, length, get_or, set, arith, Option-cases, ap, sym, ◌∙◌,
  ℤ, length-set, ℕ_discrete, Bool-cases,
}
use fdkernel.Handles.State.{Files, get_free_hndl, no_file, get_sft_idx}
use fdkernel.Handles.Calls.{
  CloseAnswers, dos_close, dos_force_dup, dos_dup, clone_handle, clone_idx, no_inherit, increment,
}
use fdkernel.Handles.Open.{OpenAnswers, dos_open}
use fdkernel.Handles.Table.{one_if, count_in, count_of, refs, count_of-put_sft}
use fdkernel.Handles.Counts.{Lowers, idx_to_sft_lem}
use fdkernel.Handles.Live.{
  IsLive, HasRoom, refs-set-le, dos_close-IsLive, dos_force_dup-IsLive, dos_dup-IsLive, count_up,
}
use fdkernel.Handles.Opened.{free_place_lem}
use fdkernel.Handles.Opening.{IsFew, Gives, CountsKept-le, dos_open_lem}

-- A call, with what is answered to it.
pub data Call : Type 0 where
  close : CloseAnswers → ℕ → Call
  force_dup : CloseAnswers → ℕ → ℕ → Call
  dup : CloseAnswers → ℕ → Call
  open_file : OpenAnswers → ℕ → ℕ → Call
  clone : ℕ → Call

unfoldable pub step : Call → Files → ℤ × Files
step (Call.close a hndl) s = dos_close a hndl s
step (Call.force_dup a old new) s = dos_force_dup a old new s
step (Call.dup a hndl) s = dos_dup a hndl s
step (Call.open_file a mode attrib) s = dos_open a mode attrib s
step (Call.clone hndl) s = clone_handle hndl s

-- The redirector answers as it should.
abbrev pub IsFair : Call → Type 0
IsFair (Call.close a hndl) = Lowers a
IsFair (Call.force_dup a old new) = Lowers a
IsFair (Call.dup a hndl) = Lowers a
IsFair (Call.open_file a mode attrib) = Unit
IsFair (Call.clone hndl) = Unit

get_free_hndl_lem :
    (s : Files) (h : ℕ) → get_free_hndl s ≡ some h → get_or s.filetab h no_file ≡ no_file
unfolding get_free_hndl
get_free_hndl_lem s h e = (free_place_lem s.filetab s.maxfiles h e).0

-- A further holder in another process.
clone_counts :
    (hndl : ℕ) (s : Files)
    → HasRoom s
    → ((clone_handle hndl s).1.filetab ≡ s.filetab)
      × ((clone_handle hndl s).1.maxfiles ≡ s.maxfiles)
      × ((j : ℕ) → count_of s.tables j ≤ count_of (clone_handle hndl s).1.tables j)
unfolding clone_handle
clone_counts hndl s room = elim (Option-cases (get_sft_idx s hndl)) [
  | inl e ↦ rw e (refl, refl, λ j. omega arith)
  | inr (i, e) ↦ elim (idx_to_sft_lem s i) [
    | inl closed ↦ rw e (rw (closed, clone_idx) (refl, refl, λ j. omega arith))
    | inr (x, at, held, open_x) ↦ rw e (
        rw (open_x, clone_idx)
          (elim (Bool-cases (no_inherit x)) [
            | inl private ↦ rw private (refl, refl, λ j. omega arith)
            | inr shared ↦ rw shared (
              refl,
              refl,
              λ j.
                  let count = count_of-put_sft s.tables i j x (increment x) at in
                  omega (arith, count_up s i j x (ap count_in at) (room i)),
            )
          ]))
  ]
]

module _ (outside : ℕ → ℕ) where
  grown-IsLive :
      (s s' : Files)
      → s'.filetab ≡ s.filetab
      → s'.maxfiles ≡ s.maxfiles
      → ((j : ℕ) → count_of s.tables j ≤ count_of s'.tables j)
      → IsLive outside s
      → IsLive outside s'
  grown-IsLive s s' table max kept live = record {
    held = λ j r.
        let same : refs s'.filetab j ≡ refs s.filetab j = ap (λ t. refs t j) table in
        omega (arith, live.held j r, kept j);
    within =
        let size : length s'.filetab ≡ length s.filetab = ap (λ t. length t) table in
        omega (arith, live.within);
  }

  given-IsLive : (s : Files) (t : ℤ × Files) → Gives s t → IsLive outside s → IsLive outside t.1
  given-IsLive s (code, s') (h, i, n, free, unused, used, result, table, max, kept) live = record {
    held = λ j r.
        let same : refs s'.filetab j ≡ refs (set s.filetab h i) j = ap (λ t. refs t j) table in
        let more = refs-set-le s.filetab h i j (get_free_hndl_lem s h free) r in
        elim (ℕ_discrete i j) [
          | yes mine ↦
              let was : count_of s.tables j ≡ 0 = ap (count_of s.tables) (sym mine) ∙ unused in
              let now : count_of s'.tables j ≡ count_of s'.tables i =
                ap (count_of s'.tables) (sym mine) in
              let one : one_if (i == j) ≡ 1 = ground arith in omega (arith, live.held j r)
          | no other ↦
              let zero_more : one_if (i == j) ≡ 0 = ground arith in
              omega (arith, live.held j r, kept j other)
        ];
    within =
        let size : length s'.filetab ≡ length s.filetab =
          ap (λ t. length t) table ∙ length-set s.filetab h i in
        omega (arith, live.within);
  }

  dos_open-IsLive :
      (a : OpenAnswers) (mode attrib : ℕ) (s : Files)
      → IsFew s
      → IsLive outside s
      → IsLive outside ((dos_open a mode attrib s).1)
  dos_open-IsLive a mode attrib s few live = elim (dos_open_lem a mode attrib s few) [
    | inl (_, table, max, kept) ↦
        grown-IsLive s ((dos_open a mode attrib s).1) table max
          (CountsKept-le s ((dos_open a mode attrib s).1) kept) live
    | inr given ↦ given-IsLive s (dos_open a mode attrib s) given live
  ]

  -- Every entry of the table of open files counts at least the handles of this process that refer
  -- to it and the holders that are outside of the process: each call that opens, closes,
  -- duplicates or passes on a handle keeps this, on success and on error, if the redirector
  -- lowers the count of a file that it closes by one at most, no count is at the limit of its
  -- word, and there are at most 255 entries.
  pub step-IsLive :
      (call : Call) (s : Files)
      → IsFair call
      → HasRoom s
      → IsFew s
      → IsLive outside s
      → IsLive outside ((step call s).1)
  unfolding step
  step-IsLive (Call.close a hndl) s fair room few live =
      dos_close-IsLive outside a hndl s fair (λ j. omega (arith, room j)) live
  step-IsLive (Call.force_dup a old new) s fair room few live =
      dos_force_dup-IsLive outside a old new s fair room live
  step-IsLive (Call.dup a hndl) s fair room few live =
      dos_dup-IsLive outside a hndl s fair room live
  step-IsLive (Call.open_file a mode attrib) s fair room few live =
      dos_open-IsLive a mode attrib s few live
  step-IsLive (Call.clone hndl) s fair room few live =
      let (table, max, kept) = clone_counts hndl s room in
      grown-IsLive s ((clone_handle hndl s).1) table max kept live
