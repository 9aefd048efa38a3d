-- ===== src/Handles/Opened.antt =====
-- What opening a file does to the handle table and to the counts of kernel/dosfns.c.
use fdkernel.Common.{
  ℕ, zero, suc, ◌+◌, ◌-◌, ◌*◌, ◌%◌, ◌^◌, ◌≤◌, ◌<◌, ◌≡◌, ◌≢◌, inl, inr, refl, true, false, not, ◌&&◌,
  Option, some, List, [], ◌∷◌, ltb, ◌==◌, length, get_or, get_elem?, arith, Bool-cases,
  Option-cases, ap, sym, ◌∙◌, ℤ, pos, negsuc, ℕ_discrete,
}
use fdkernel.Handles.State.{
  Sft, SftKind, Files, find_sft, put_sft, free_place, free_in_table, get_free_sft, no_file,
}
use fdkernel.Handles.Calls.{update, increment, de_access}
use fdkernel.Handles.Open.{OpenAnswers, fresh, with_status, open_device, open_network}
use fdkernel.Handles.Table.{count_in, count_of, count_of-put_sft}

pub free_place_lem :
    (xs : List ℕ) (n h : ℕ) → free_place xs n ≡ some h → (get_or xs h no_file ≡ no_file) × (h < n)
unfolding free_place
free_place_lem xs zero h e = cc
free_place_lem [] (suc n) h e = cc
free_place_lem (x ∷ xs) (suc n) zero e = elim (Bool-cases (x == no_file)) [
  | inl here ↦ ground arith
  | inr later ↦ elim (Option-cases (free_place xs n)) [
    | inl e' ↦ ground (arith, e')
    | inr (i, e') ↦ ground (arith, e')
  ]
]
free_place_lem (x ∷ xs) (suc n) (suc h) e = elim (Bool-cases (x == no_file)) [
  | inl here ↦ ground arith
  | inr later ↦ elim (Option-cases (free_place xs n)) [
    | inl e' ↦ ground (arith, e')
    | inr (i, e') ↦
        let same : i ≡ h = ground (arith, e') in
        let (free, below) = free_place_lem xs n h (e' ∙ ap some same) in (free, omega arith)
  ]
]

abbrev pub IsUnused : Option Sft → Type 0
IsUnused o = (x : Sft) × (o ≡ some x) × (x.sft_count ≡ 0)

free_in_table_lem :
    (xs : List Sft) (i : ℕ)
    → free_in_table xs ≡ some i
    → (i < length xs) × IsUnused (get_elem? xs i)
unfolding free_in_table
free_in_table_lem [] i e = cc
free_in_table_lem (x ∷ xs) zero e = elim (Bool-cases (x.sft_count == 0)) [
  | inl here ↦ (omega arith, (x, refl, ground arith))
  | inr later ↦ elim (Option-cases (free_in_table xs)) [
    | inl e' ↦ absurd (ground (arith, e'))
    | inr (k, e') ↦ absurd (ground (arith, e'))
  ]
]
free_in_table_lem (x ∷ xs) (suc i) e = elim (Bool-cases (x.sft_count == 0)) [
  | inl here ↦ absurd (ground arith)
  | inr later ↦ elim (Option-cases (free_in_table xs)) [
    | inl e' ↦ absurd (ground (arith, e'))
    | inr (k, e') ↦
        let same : k ≡ i = ground (arith, e') in
        let (below, unused) = free_in_table_lem xs i (e' ∙ ap some same) in (omega arith, unused)
  ]
]

pub get_free_sft_lem :
    (ts : List (List Sft)) (i : ℕ) → get_free_sft ts ≡ some i → IsUnused (find_sft ts i)
unfolding get_free_sft find_sft
get_free_sft_lem [] i e = cc
get_free_sft_lem (t ∷ ts) i e = elim (Option-cases (free_in_table t)) [
  | inr (k, e') ↦
      let same : k ≡ i = ground (arith, e') in
      let (below, unused) = free_in_table_lem t i (e' ∙ ap some same) in
      let inside : ltb i (length t) ≡ true = ground arith in rw inside unused
  | inl e' ↦ elim (Option-cases (get_free_sft ts)) [
    | inl e'' ↦ absurd (ground (arith, e', e''))
    | inr (k, e'') ↦
        let same : i ≡ length t + k = ground (arith, e', e'') in
        let outside : ltb i (length t) ≡ false = ground arith in
        let rest : i - length t ≡ k = omega arith in
        rw outside (rw rest (get_free_sft_lem ts k e''))
  ]
]

-- The entry `i` that an answer of `DosOpenSft` names has at least one holder.
abbrev pub Names : ℕ → ℕ → ℤ → Type 0
Names i k (pos n) = (n % 2 ^ 8 ≡ i) × (1 ≤ k)
Names i k (negsuc n) = Unit

-- The handle table stays, no count falls, that of an entry other than `i` stays, and a file that is opened counts its holder.
abbrev pub Opens : ℕ → Files → ℤ × Files → Type 0
Opens i s t =
    (t.1.filetab ≡ s.filetab)
    × (t.1.maxfiles ≡ s.maxfiles)
    × ((j : ℕ) → count_of s.tables j ≤ count_of t.1.tables j)
    × ((j : ℕ) → i ≢ j → count_of t.1.tables j ≡ count_of s.tables j)
    × Names i (count_of t.1.tables i) t.0

-- Writing an entry that was not in use lowers no count.
fill_entry :
    (i : ℕ) (x y : Sft) (s : Files)
    → find_sft s.tables i ≡ some x
    → x.sft_count ≡ 0
    → ((j : ℕ) → count_of s.tables j ≤ count_of (put_sft s.tables i y) j)
      × ((j : ℕ) → i ≢ j → count_of (put_sft s.tables i y) j ≡ count_of s.tables j)
      × (count_of (put_sft s.tables i y) i ≡ y.sft_count)
fill_entry i x y s e unused = (
  λ j. elim (ℕ_discrete i j) [
    | yes same ↦
        let at : count_of s.tables j ≡ 0 =
          ap (count_of s.tables) (sym same) ∙ ap count_in e ∙ unused in
        omega arith
    | no other ↦ ground (arith, count_of-put_sft s.tables i j x y e)
  ],
  λ j other. ground (arith, count_of-put_sft s.tables i j x y e),
  ground (arith, count_of-put_sft s.tables i i x y e),
)

pub Opens-update :
    (i : ℕ) (x y : Sft) (code : ℤ) (s : Files)
    → find_sft s.tables i ≡ some x
    → x.sft_count ≡ 0
    → Names i y.sft_count code
    → Opens i s (code, update i y s)
Opens-update i x y (pos n) s e unused (named, held) =
    let (kept, others, there) = fill_entry i x y s e unused in
    (refl, refl, kept, others, (named, omega arith))
Opens-update i x y (negsuc n) s e unused named =
    let (kept, others, there) = fill_entry i x y s e unused in (refl, refl, kept, others, tt)

pub open_device-Opens :
    (a : OpenAnswers) (flags i : ℕ) (x : Sft) (s : Files)
    → find_sft s.tables i ≡ some x
    → x.sft_count ≡ 0
    → i < 255
    → Opens i s (open_device a flags i s)
unfolding open_device
open_device-Opens a flags i x s e unused few =
    let y = increment (record (fresh flags) { sft_flags = SftKind.device a.focrm }) in
    elim (Bool-cases (a.focrm && not a.device_opened)) [
      | inl refused ↦ rw refused (Opens-update i x y de_access s e unused tt)
      | inr told ↦ rw told (Opens-update i x y (pos i) s e unused (omega arith, omega arith))
    ]

pub with_status-Opens :
    (n i : ℕ) (x y : Sft) (s : Files)
    → find_sft s.tables i ≡ some x
    → x.sft_count ≡ 0
    → i < 255
    → 1 ≤ y.sft_count
    → Opens i s (with_status i (pos n) (update i y s))
with_status-Opens n i x y s e unused few held =
    Opens-update i x y (pos (i + n * 2 ^ 16)) s e unused (omega arith, held)

pub network_opened :
    (z : ℤ) (a : OpenAnswers) (i : ℕ) (x : Sft) (s : Files)
    → a.status ≡ z
    → find_sft s.tables i ≡ some x
    → x.sft_count ≡ 0
    → i < 255
    → Opens i s (open_network a i s)
unfolding open_network
network_opened (pos n) a i x s is e unused few = rw is (elim (ℕ_discrete a.redirected.sft_count 0) [
  | yes none_left ↦
      let test : (a.redirected.sft_count == 0) ≡ true = ground arith in
      rw test (with_status-Opens n i x (increment a.redirected) s e unused few (omega arith))
  | no held ↦
      let test : (a.redirected.sft_count == 0) ≡ false = ground arith in
      rw test (with_status-Opens n i x a.redirected s e unused few (omega arith))
])
network_opened (negsuc n) a i x s is e unused few =
    rw is (Opens-update i x a.redirected (negsuc n) s e unused tt)
