-- ===== src/Handles/Counts.antt =====
-- What closing a handle does to the handle table and to the counts of kernel/dosfns.c.
use fdkernel.Common.{
  ℕ, ◌+◌, ◌^◌, ◌≤◌, ◌<◌, ◌≡◌, ◌≢◌, ◌⊎◌, inl, inr, refl, Bool, false, not, ◌&&◌, ◌||◌, none, some,
  ◌==◌, arith, Bool-cases, Option-cases, ℕ_discrete, ap, sym, ◌∙◌, ℤ, pos, negsuc,
}
use fdkernel.Handles.State.{
  Sft, SftKind, Files, find_sft, put_sft, idx_to_sft, get_sft_idx, no_file,
}
use fdkernel.Handles.Calls.{
  CloseAnswers, update, decrement, close_sft, dos_close_sft, forget, close_idx, dos_close,
  de_invldhndl, is_success, log_share,
}
use fdkernel.Handles.Table.{one_if, count_in, count_of, count_of-put_sft}

-- The redirector lowers the count of a file by one at most.
abbrev pub Lowers : CloseAnswers → Type 0
Lowers a = (n : ℕ) → (a.count_left n ≤ n) × (n ≤ a.count_left n + 1)

-- The handle table of `s'` is that of `s`, and only the count of `i` may be one lower.
abbrev pub Lowered : ℕ → Files → Files → Type 0
Lowered i s s' =
    (s'.filetab ≡ s.filetab)
    × (s'.maxfiles ≡ s.maxfiles)
    × ((j : ℕ)
        → (count_of s'.tables j ≤ count_of s.tables j)
          × (count_of s.tables j ≤ count_of s'.tables j + one_if (i == j)))

Lowered-same : (i : ℕ) (s : Files) → Lowered i s s
Lowered-same i s = (refl, refl, λ j. (omega arith, omega arith))

counts_lem :
    (i j : ℕ) (x y : Sft) (s : Files)
    → find_sft s.tables i ≡ some x
    → y.sft_count ≤ x.sft_count
    → x.sft_count ≤ y.sft_count + 1
    → (count_of (put_sft s.tables i y) j ≤ count_of s.tables j)
      × (count_of s.tables j ≤ count_of (put_sft s.tables i y) j + one_if (i == j))
counts_lem i j x y s e low high = elim (ℕ_discrete i j) [
  | yes same ↦
      let at : count_of s.tables j ≡ x.sft_count =
        ap (count_of s.tables) (sym same) ∙ ap count_in e in
      ground (arith, count_of-put_sft s.tables i j x y e)
  | no other ↦ ground (arith, count_of-put_sft s.tables i j x y e)
]

Lowered-update :
    (i : ℕ) (x y : Sft) (s : Files)
    → find_sft s.tables i ≡ some x
    → y.sft_count ≤ x.sft_count
    → x.sft_count ≤ y.sft_count + 1
    → Lowered i s (update i y s)
Lowered-update i x y s e low high = (refl, refl, λ j. counts_lem i j x y s e low high)

log_share-same :
    (z : ℤ) (s : Files) → (i : ℕ) (t : Files) → Lowered i (log_share z s) t → Lowered i s t
log_share-same (pos n) s i t h = h
log_share-same (negsuc n) s i t h = h

log_share-tables : (z : ℤ) (s : Files) → (log_share z s).tables ≡ s.tables
log_share-tables (pos n) s = refl
log_share-tables (negsuc n) s = refl

close_sft-Lowered :
    (a : CloseAnswers) (commitonly : Bool) (i : ℕ) (k : SftKind) (x : Sft) (s : Files)
    → Lowers a
    → find_sft s.tables i ≡ some x
    → x.sft_count ≢ 0
    → x.sft_count < 2 ^ 16
    → Lowered i s ((close_sft a commitonly i k x s).1)
unfolding close_sft
close_sft-Lowered a commitonly i SftKind.shared x s lowers e held short =
    let (low, high) = lowers x.sft_count in
    Lowered-update i x (record x { sft_count = a.count_left x.sft_count }) s e low high
close_sft-Lowered a commitonly i (SftKind.device focrm) x s lowers e held short =
    elim (Bool-cases (focrm && not (a.device_closed))) [
      | inl refused ↦ rw refused (Lowered-same i s)
      | inr told ↦ rw told (elim (Bool-cases commitonly) [
        | inl only ↦ rw only (Lowered-same i s)
        | inr really ↦ rw really (Lowered-update i x (decrement x) s e (omega arith) (omega arith))
      ])
    ]
close_sft-Lowered a commitonly i SftKind.file x s lowers e held short =
    elim (Bool-cases (commitonly || not (is_success a.closed))) [
      | inl kept ↦ rw kept (Lowered-same i s)
      | inr dropped ↦ rw dropped (elim (Bool-cases ((x.sft_count == 1) && a.share_installed)) [
        | inl last ↦ rw last (
            log_share-same x.sft_shroff s i
              (update i (decrement (record x { sft_shroff = negsuc 0 })) (log_share x.sft_shroff s))
              (Lowered-update i x (decrement (record x { sft_shroff = negsuc 0 }))
                (log_share x.sft_shroff s)
                (ap (λ ts. find_sft ts i) (log_share-tables x.sft_shroff s) ∙ e) (omega arith)
                (omega arith)))
        | inr more ↦ rw more (Lowered-update i x (decrement x) s e (omega arith) (omega arith))
      ])
    ]

-- Every count fits a word.
abbrev pub Words : Files → Type 0
Words s = (i : ℕ) → count_of s.tables i < 2 ^ 16

-- An index that leads to an entry in use.
pub idx_to_sft_lem :
    (s : Files) (i : ℕ)
    → (idx_to_sft s i ≡ none)
      ⊎ ((x : Sft) × (find_sft s.tables i ≡ some x) × (x.sft_count ≢ 0) × (idx_to_sft s i ≡ some x))
unfolding idx_to_sft
idx_to_sft_lem s i = elim (Option-cases (find_sft s.tables i)) [
  | inl e ↦ inl (rw e)
  | inr (x, e) ↦ elim (ℕ_discrete x.sft_count 0) [
    | yes z ↦ inl (rw e (ground arith))
    | no nz ↦ inr (x, e, nz, rw e (ground arith))
  ]
]

dos_close_sft-Lowered :
    (a : CloseAnswers) (commitonly : Bool) (i : ℕ) (s : Files)
    → Lowers a
    → Words s
    → Lowered i s ((dos_close_sft a commitonly i s).1)
unfolding dos_close_sft
dos_close_sft-Lowered a commitonly i s lowers words = elim (idx_to_sft_lem s i) [
  | inl e ↦ rw (e, dos_close_sft) (Lowered-same i s)
  | inr (x, at, held, e) ↦
      let short : x.sft_count < 2 ^ 16 = omega (arith, words i, ap count_in at) in
      rw (e, dos_close_sft) (close_sft-Lowered a commitonly i x.sft_flags x s lowers at held short)
]

-- A handle that leads to an entry loses it, and no count falls but that of this entry, by one at
-- most; any other handle is refused and nothing changes.
pub dos_close_lem :
    (a : CloseAnswers) (hndl : ℕ) (s : Files)
    → Lowers a
    → Words s
    → (dos_close a hndl s ≡ (de_invldhndl, s))
      ⊎ ((i : ℕ) × (get_sft_idx s hndl ≡ some i)
          × Lowered i (forget hndl no_file s) ((dos_close a hndl s).1))
unfolding dos_close
dos_close_lem a hndl s lowers words = elim (Option-cases (get_sft_idx s hndl)) [
  | inl e ↦ inl (rw e)
  | inr (i, e) ↦ elim (idx_to_sft_lem s i) [
    | inl closed ↦ inl (rw e (rw (closed, close_idx)))
    | inr (x, at, held, open_x) ↦ inr (
      i,
      e,
      rw e (
          rw (open_x, close_idx)
            (dos_close_sft-Lowered a false i (forget hndl no_file s) lowers words)),
    )
  ]
]
