-- ===== src/Handles/Open.antt =====
-- kernel/dosfns.c: `DosOpenSft` and `DosOpen` on the tables. The name is looked up by `truename`;
-- what it and the others that are called answer is an argument.
use fdkernel.Common.{
  ℕ, ◌+◌, ◌*◌, ◌/◌, ◌%◌, ◌^◌, Bool, true, false, not, ◌&&◌, ◌||◌, Option, none, some, ℤ, pos,
  negsuc, ◌==◌, if◌then◌else◌, ◌∷◌,
}
use fdkernel.Handles.State.{Files, Sft, SftKind, get_free_hndl, get_free_sft}
use fdkernel.Handles.Calls.{
  update, increment, decrement, forget, de_toomany, de_access, de_invldacc,
}

-- The result of `truename`, and for a device whether `IsDevice` finds it.
pub data PathKind : Type 0 where
  bad_path : ℕ → PathKind
  on_device : Bool → PathKind
  on_network : PathKind
  on_disk : PathKind

-- `focrm` and `device_opened` for a device; `status` and the entry that the redirector leaves in
-- the table; what `share_open_check` returns, if SHARE is there, and whether SHARE is there after
-- a failure; and the result of `dos_open`.
pub record OpenAnswers : Type 0 where
  pub path : PathKind
  pub focrm : Bool
  pub device_opened : Bool
  pub status : ℤ
  pub redirected : Sft
  pub share_check : Option ℤ
  pub share_later : Bool
  pub opened : ℤ

-- The entry after `fmemset` and the assignments that follow.
abbrev pub fresh : ℕ → Sft
fresh flags = record {
  sft_count = 0;
  sft_mode = flags % 2 ^ 8 + flags / 2 ^ 12 % 2 ^ 4 * 2 ^ 12;
  sft_flags = SftKind.file;
  sft_shroff = negsuc 0;
}

abbrev pub with_status : ℕ → ℤ → Files → ℤ × Files
with_status i (pos n) s = (pos (i + n * 2 ^ 16), s)
with_status i (negsuc n) s = (negsuc n, s)

unfoldable pub open_device : OpenAnswers → ℕ → ℕ → Files → ℤ × Files
open_device a flags i s =
    let x = increment (record (fresh flags) { sft_flags = SftKind.device a.focrm }) in
    (if a.focrm && not a.device_opened then de_access else pos i, update i x s)

unfoldable pub open_network : OpenAnswers → ℕ → Files → ℤ × Files
open_network a i s =
    let x = a.redirected in
    let counted = if x.sft_count == 0 then increment x else x in
    elim a.status [
      | pos n ↦ with_status i (pos n) (update i counted s)
      | negsuc n ↦ (negsuc n, update i x s)
    ]

-- After `sft_count++`: `dos_open`, and what is undone when it fails.
abbrev pub finish_open : OpenAnswers → ℕ → Sft → ℤ → Files → ℤ × Files
finish_open a i x (pos n) s = with_status i (pos n) (update i (increment x) s)
finish_open a i x (negsuc n) s = (
  negsuc n,
  if a.share_later
      then update i (decrement (increment (record x { sft_shroff = negsuc 0 })))
          (record s { share_closed = x.sft_shroff ∷ s.share_closed })
      else update i (decrement (increment x)) s,
)

abbrev pub open_shared : OpenAnswers → ℕ → Sft → Option ℤ → Files → ℤ × Files
open_shared a i x none s = finish_open a i x a.opened s
open_shared a i x (some (pos n)) s = finish_open a i (record x { sft_shroff = pos n }) a.opened s
open_shared a i x (some (negsuc n)) s = (negsuc n, update i (record x { sft_shroff = negsuc n }) s)

-- Attributes other than read-only, hidden, system, volume label and archive.
abbrev pub bad_attrib : ℕ → Bool
bad_attrib attrib = not (attrib / 2 ^ 4 % 2 == 0) || not (attrib / 2 ^ 6 == 0)

unfoldable pub open_disk : OpenAnswers → ℕ → ℕ → ℕ → Files → ℤ × Files
open_disk a flags attrib i s =
    if flags % 4 == 3
    then (de_invldacc, update i (fresh flags) s)
    else (if (flags / 2 ^ 15 % 2 == 0) && bad_attrib attrib
        then (de_access, update i (fresh flags) s)
        else open_shared a i (fresh flags) a.share_check s)

unfoldable pub open_in : OpenAnswers → PathKind → ℕ → ℕ → ℕ → Files → ℤ × Files
open_in a (PathKind.bad_path n) flags attrib i s = (negsuc n, s)
open_in a (PathKind.on_device true) flags attrib i s = open_device a flags i s
open_in a (PathKind.on_device false) flags attrib i s = open_disk a flags attrib i s
open_in a PathKind.on_network flags attrib i s = open_network a i s
open_in a PathKind.on_disk flags attrib i s = open_disk a flags attrib i s

abbrev pub open_free : OpenAnswers → PathKind → ℕ → ℕ → Option ℕ → Files → ℤ × Files
open_free a (PathKind.bad_path n) flags attrib i s = (negsuc n, s)
open_free a kind flags attrib none s = (de_toomany, s)
open_free a kind flags attrib (some i) s = open_in a kind flags attrib i s

unfoldable pub dos_open_sft : OpenAnswers → ℕ → ℕ → Files → ℤ × Files
dos_open_sft a flags attrib s = open_free a a.path flags attrib (get_free_sft s.tables) s

abbrev pub opened_as : ℕ → ℤ × Files → ℤ × Files
opened_as hndl (pos r, s) = (pos (hndl + r / 2 ^ 16 * 2 ^ 16), forget hndl (r % 2 ^ 8) s)
opened_as hndl (negsuc n, s) = (negsuc n, s)

-- A mode with one of the bits 2 and 3 is refused.
unfoldable pub dos_open : OpenAnswers → ℕ → ℕ → Files → ℤ × Files
dos_open a mode attrib s =
    if mode / 2 ^ 2 % 4 == 0
    then elim (get_free_hndl s) [
      | none ↦ (de_toomany, s)
      | some hndl ↦ opened_as hndl (dos_open_sft a mode attrib s)
    ]
    else (de_invldacc, s)
