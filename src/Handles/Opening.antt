-- ===== src/Handles/Opening.antt =====
-- What `DosOpenSft` and `DosOpen` of kernel/dosfns.c do on all their ways.
use fdkernel.Common.{
  ℕ, ◌+◌, ◌*◌, ◌/◌, ◌%◌, ◌^◌, ◌≤◌, ◌<◌, ◌≡◌, ◌≢◌, ◌⊎◌, inl, inr, refl, true, false, ◌&&◌, Option,
  none, some, ◌∷◌, ◌==◌, set, arith, Bool-cases, Option-cases, ap, sym, ℕ_discrete, ◌∙◌, ℤ, pos,
  negsuc,
}
use fdkernel.Handles.State.{Sft, Files, find_sft, get_free_hndl, get_free_sft}
use fdkernel.Handles.Calls.{increment, decrement, de_invldacc, de_access}
use fdkernel.Handles.Open.{
  PathKind, OpenAnswers, fresh, finish_open, open_shared, bad_attrib, open_disk, open_in, open_free,
  dos_open_sft, opened_as, dos_open,
}
use fdkernel.Handles.Table.{count_in, count_of}
use fdkernel.Handles.Opened.{
  Opens, Opens-update, with_status-Opens, open_device-Opens, network_opened, get_free_sft_lem,
}

finish_open-Opens :
    (a : OpenAnswers) (i : ℕ) (x y : Sft) (z : ℤ) (s : Files)
    → find_sft s.tables i ≡ some x
    → x.sft_count ≡ 0
    → i < 255
    → y.sft_count ≡ 0
    → Opens i s (finish_open a i y z s)
finish_open-Opens a i x y (pos n) s e unused few zero_y =
    with_status-Opens n i x (increment y) s e unused few (omega arith)
finish_open-Opens a i x y (negsuc n) s e unused few zero_y = elim (Bool-cases a.share_later) [
  | inl installed ↦
      rw (installed, finish_open)
        (Opens-update i x (decrement (increment (record y { sft_shroff = negsuc 0 }))) (negsuc n)
          (record s { share_closed = y.sft_shroff ∷ s.share_closed }) e unused tt)
  | inr gone ↦
      rw (gone, finish_open) (Opens-update i x (decrement (increment y)) (negsuc n) s e unused tt)
]

open_shared-Opens :
    (a : OpenAnswers) (i : ℕ) (x y : Sft) (o : Option ℤ) (s : Files)
    → find_sft s.tables i ≡ some x
    → x.sft_count ≡ 0
    → i < 255
    → y.sft_count ≡ 0
    → Opens i s (open_shared a i y o s)
open_shared-Opens a i x y none s e unused few zero_y =
    finish_open-Opens a i x y a.opened s e unused few zero_y
open_shared-Opens a i x y (some (pos n)) s e unused few zero_y =
    finish_open-Opens a i x (record y { sft_shroff = pos n }) a.opened s e unused few zero_y
open_shared-Opens a i x y (some (negsuc n)) s e unused few zero_y =
    Opens-update i x (record y { sft_shroff = negsuc n }) (negsuc n) s e unused tt

open_disk-Opens :
    (a : OpenAnswers) (flags attrib i : ℕ) (x : Sft) (s : Files)
    → find_sft s.tables i ≡ some x
    → x.sft_count ≡ 0
    → i < 255
    → Opens i s (open_disk a flags attrib i s)
unfolding open_disk
open_disk-Opens a flags attrib i x s e unused few = elim (Bool-cases (flags % 4 == 3)) [
  | inl bad ↦ rw bad (Opens-update i x (fresh flags) de_invldacc s e unused tt)
  | inr fine ↦ rw fine (elim (Bool-cases ((flags / 2 ^ 15 % 2 == 0) && bad_attrib attrib)) [
    | inl bad ↦ rw bad (Opens-update i x (fresh flags) de_access s e unused tt)
    | inr good ↦ rw good (open_shared-Opens a i x (fresh flags) a.share_check s e unused few refl)
  ])
]

open_in-Opens :
    (a : OpenAnswers) (k : PathKind) (flags attrib i : ℕ) (x : Sft) (s : Files)
    → find_sft s.tables i ≡ some x
    → x.sft_count ≡ 0
    → i < 255
    → Opens i s (open_in a k flags attrib i s)
unfolding open_in
open_in-Opens a (PathKind.bad_path n) flags attrib i x s e unused few =
    (refl, refl, λ j. omega arith, λ j other. refl, tt)
open_in-Opens a (PathKind.on_device true) flags attrib i x s e unused few =
    open_device-Opens a flags i x s e unused few
open_in-Opens a (PathKind.on_device false) flags attrib i x s e unused few =
    open_disk-Opens a flags attrib i x s e unused few
open_in-Opens a PathKind.on_network flags attrib i x s e unused few =
    network_opened a.status a i x s refl e unused few
open_in-Opens a PathKind.on_disk flags attrib i x s e unused few =
    open_disk-Opens a flags attrib i x s e unused few

-- Refused outright, or an entry that no handle held is written.
abbrev OpensSome : Files → ℤ × Files → Type 0
OpensSome s t =
    ((n : ℕ) × (t ≡ (negsuc n, s))) ⊎ ((i : ℕ) × (count_of s.tables i ≡ 0) × Opens i s t)

-- An index of the tables fits the handle table, where 255 means that a handle is free.
abbrev pub IsFew : Files → Type 0
IsFew s = (i : ℕ) → find_sft s.tables i ≢ none → i < 255

open_in-OpensSome :
    (a : OpenAnswers) (k : PathKind) (flags attrib i : ℕ) (s : Files)
    → get_free_sft s.tables ≡ some i
    → IsFew s
    → OpensSome s (open_in a k flags attrib i s)
open_in-OpensSome a k flags attrib i s e few =
    let (x, at, unused) = get_free_sft_lem s.tables i e in
    let is_index : i < 255 = few i (λ nothing. absurd (ground (arith, at, nothing))) in
    inr (i, ap count_in at ∙ unused, open_in-Opens a k flags attrib i x s at unused is_index)

open_free-OpensSome :
    (a : OpenAnswers) (k : PathKind) (flags attrib : ℕ) (o : Option ℕ) (s : Files)
    → get_free_sft s.tables ≡ o
    → IsFew s
    → OpensSome s (open_free a k flags attrib o s)
open_free-OpensSome a (PathKind.bad_path n) flags attrib o s e few = inl (n, refl)
open_free-OpensSome a (PathKind.on_device b) flags attrib none s e few = inl (3, refl)
open_free-OpensSome a PathKind.on_network flags attrib none s e few = inl (3, refl)
open_free-OpensSome a PathKind.on_disk flags attrib none s e few = inl (3, refl)
open_free-OpensSome a (PathKind.on_device b) flags attrib (some i) s e few =
    open_in-OpensSome a (PathKind.on_device b) flags attrib i s e few
open_free-OpensSome a PathKind.on_network flags attrib (some i) s e few =
    open_in-OpensSome a PathKind.on_network flags attrib i s e few
open_free-OpensSome a PathKind.on_disk flags attrib (some i) s e few =
    open_in-OpensSome a PathKind.on_disk flags attrib i s e few

dos_open_sft-OpensSome :
    (a : OpenAnswers) (flags attrib : ℕ) (s : Files)
    → IsFew s
    → OpensSome s (dos_open_sft a flags attrib s)
unfolding dos_open_sft
dos_open_sft-OpensSome a flags attrib s few =
    open_free-OpensSome a a.path flags attrib (get_free_sft s.tables) s refl few

-- No count changes, or only that of one entry, which had no holder.
abbrev pub CountsKept : Files → Files → Type 0
CountsKept s t =
    ((j : ℕ) → count_of t.tables j ≡ count_of s.tables j)
    ⊎ ((i : ℕ) × (count_of s.tables i ≡ 0)
        × ((j : ℕ) → i ≢ j → count_of t.tables j ≡ count_of s.tables j))

pub others_kept_le :
    (i : ℕ) (s t : Files)
    → count_of s.tables i ≡ 0
    → ((j : ℕ) → i ≢ j → count_of t.tables j ≡ count_of s.tables j)
    → (j : ℕ) → count_of s.tables j ≤ count_of t.tables j
others_kept_le i s t none_held others j = elim (ℕ_discrete i j) [
  | yes same ↦
      let here : count_of s.tables j ≡ 0 = ap (count_of s.tables) (sym same) ∙ none_held in
      omega arith
  | no other ↦ omega (arith, others j other)
]

pub CountsKept-le :
    (s t : Files) → CountsKept s t → (j : ℕ) → count_of s.tables j ≤ count_of t.tables j
CountsKept-le s t (inl same) j = omega (arith, same j)
CountsKept-le s t (inr (i, none_held, others)) j = others_kept_le i s t none_held others j

-- An error leaves every handle as it was.
abbrev pub Fails : Files → ℤ × Files → Type 0
Fails s t =
    ((n : ℕ) × (t.0 ≡ negsuc n))
    × (t.1.filetab ≡ s.filetab)
    × (t.1.maxfiles ≡ s.maxfiles)
    × CountsKept s t.1

-- The first free handle leads to an entry that had no holder and has one now, and is in the low
-- half of the result.
abbrev pub Gives : Files → ℤ × Files → Type 0
Gives s t =
    (h : ℕ) × (i : ℕ) × (n : ℕ) × (get_free_hndl s ≡ some h)
    × (count_of s.tables i ≡ 0)
    × (1 ≤ count_of t.1.tables i)
    × (t.0 ≡ pos (h + n * 2 ^ 16))
    × (t.1.filetab ≡ set s.filetab h i)
    × (t.1.maxfiles ≡ s.maxfiles)
    × ((j : ℕ) → i ≢ j → count_of t.1.tables j ≡ count_of s.tables j)

opened_as_lem :
    (h : ℕ) (s : Files) (t : ℤ × Files)
    → get_free_hndl s ≡ some h
    → OpensSome s t
    → Fails s (opened_as h t) ⊎ Gives s (opened_as h t)
opened_as_lem h s (pos r, s') e (inl (n, is)) = absurd (ground (arith, ap (λ t. t.0) is))
opened_as_lem h s (negsuc r, s') e (inl (n, is)) =
    let same : s' ≡ s = ap (λ t. t.1) is in
    inl (
      (r, refl),
      ap (λ t. t.filetab) same,
      ap (λ t. t.maxfiles) same,
      inl (λ j. ap (λ t. count_of t.tables j) same),
    )
opened_as_lem h s (pos r, s') e (inr (i, unused, (table, max, kept, others, (named, used)))) = inr (
  h,
  i,
  r / 2 ^ 16,
  e,
  unused,
  used,
  refl,
  ap (λ v. set s'.filetab h v) named ∙ ap (λ t. set t h i) table,
  max,
  others,
)
opened_as_lem h s (negsuc r, s') e (inr (i, unused, (table, max, kept, others, named))) =
    inl ((r, refl), table, max, inr (i, unused, others))

dos_open-opened_as :
    (a : OpenAnswers) (mode attrib h : ℕ) (s : Files)
    → (mode / 2 ^ 2 % 4 == 0) ≡ true
    → get_free_hndl s ≡ some h
    → dos_open a mode attrib s ≡ opened_as h (dos_open_sft a mode attrib s)
unfolding dos_open
dos_open-opened_as a mode attrib h s valid e = rw (valid, e)

dos_open-refused :
    (a : OpenAnswers) (mode attrib : ℕ) (s : Files)
    → ((mode / 2 ^ 2 % 4 == 0) ≡ false) ⊎ (get_free_hndl s ≡ none)
    → (n : ℕ) × (dos_open a mode attrib s ≡ (negsuc n, s))
unfolding dos_open
dos_open-refused a mode attrib s (inl invalid) = (11, rw invalid)
dos_open-refused a mode attrib s (inr e) = elim (Bool-cases (mode / 2 ^ 2 % 4 == 0)) [
  | inl valid ↦ (3, rw (valid, e))
  | inr invalid ↦ (11, rw invalid)
]

refused-Fails : (s : Files) (t : ℤ × Files) → (n : ℕ) × (t ≡ (negsuc n, s)) → Fails s t
refused-Fails s t (n, e) = rw e ((n, refl), refl, refl, inl (λ j. refl))

-- `DosOpen`, where there are at most 255 entries: either it returns an error, and then every handle
-- is as before, and every count but that of one entry which no handle held, and which the code may
-- leave in use; or it puts an entry that no handle held, and that counts at least one now, under the
-- first free handle and returns this handle in the low half of the result, and every other count is
-- as before.
pub dos_open_lem :
    (a : OpenAnswers) (mode attrib : ℕ) (s : Files)
    → IsFew s
    → Fails s (dos_open a mode attrib s) ⊎ Gives s (dos_open a mode attrib s)
dos_open_lem a mode attrib s few = elim (Bool-cases (mode / 2 ^ 2 % 4 == 0)) [
  | inr refused ↦
      inl (
        refused-Fails s (dos_open a mode attrib s) (dos_open-refused a mode attrib s (inl refused)))
  | inl valid ↦ elim (Option-cases (get_free_hndl s)) [
    | inl e ↦
        inl (refused-Fails s (dos_open a mode attrib s) (dos_open-refused a mode attrib s (inr e)))
    | inr (h, e) ↦ rw (dos_open-opened_as a mode attrib h s valid e) (
        opened_as_lem h s (dos_open_sft a mode attrib s) e
          (dos_open_sft-OpensSome a mode attrib s few))
  ]
]
