-- ===== src/Handles/Examples.antt =====
-- Two tables of open files, and calls of kernel/dosfns.c on them.
use fdkernel.Common.{
  ℕ, ◌+◌, ◌≤◌, ◌≡◌, ◌≢◌, ◌⊎◌, refl, true, false, none, some, [], ◌∷◌, pos, negsuc, arith, zero, suc,
  ◌-◌, ltb, ap, dec_lt,
}
use fdkernel.Handles.State.{
  Sft, SftKind, Files, no_file, find_sft, put_sft, idx_to_sft, get_sft_idx, get_free_hndl,
  free_place, get_free_sft, free_in_table,
}
use fdkernel.Handles.Calls.{
  CloseAnswers, success, dos_close, dos_close_sft, close_sft, dos_dup, dos_force_dup, duplicate,
}
use fdkernel.Handles.Open.{
  PathKind, OpenAnswers, dos_open, dos_open_sft, open_in, open_disk, open_device,
}
use fdkernel.Handles.Table.{refs, count_of, count_in}
use fdkernel.Handles.Counts.{Lowers}
use fdkernel.Handles.Live.{IsLive, HasRoom}
use fdkernel.Handles.Opening.{IsFew, Fails, Gives, dos_open_lem}
use fdkernel.Handles.Step.{Call, step, step-IsLive}
use fdkernel.Handles.DupClose.{dos_close-dos_dup}

abbrev entry : SftKind → ℕ → Sft
entry kind count = record { sft_count = count; sft_mode = 2; sft_flags = kind; sft_shroff = pos 4 }

-- The console, held by the handles 0 and 1 and by another process; a file under handle 2; and, in
-- a second table, an entry that is free.
abbrev start : Files
start = record {
  tables =
      (entry (SftKind.device false) 3 ∷ entry SftKind.file 1 ∷ [])
      ∷ (entry SftKind.file 0 ∷ [])
      ∷ [];
  filetab = 0 ∷ 0 ∷ 1 ∷ 255 ∷ 255 ∷ [];
  maxfiles = 5;
  share_closed = [];
}

abbrev closes : CloseAnswers
closes = record {
  redirector = success;
  count_left = λ n. n - 1;
  device_closed = true;
  closed = success;
  share_installed = true;
}

abbrev opens : OpenAnswers
opens = record {
  path = PathKind.on_disk;
  focrm = false;
  device_opened = true;
  status = success;
  redirected = entry SftKind.shared 1;
  share_check = some (pos 7);
  share_later = true;
  opened = pos 1;
}

abbrev elsewhere : ℕ → ℕ
elsewhere zero = 1
elsewhere (suc i) = 0

closes-Lowers : Lowers closes
closes-Lowers n = (omega arith, omega arith)

find_sft-none : (i : ℕ) → 3 ≤ i → find_sft start.tables i ≡ none
unfolding find_sft
find_sft-none i after =
    let first : ltb i 2 ≡ false = ground arith in
    let second : ltb (i - 2) 1 ≡ false = ground arith in rw first (rw second refl)

start-IsFew : IsFew start
start-IsFew i there = elim (dec_lt i 3) [
  | yes small ↦ omega arith
  | no big ↦ absurd (there (find_sft-none i (omega arith)))
]

start-HasRoom : HasRoom start
unfolding find_sft
start-HasRoom zero = omega arith
start-HasRoom (suc zero) = omega arith
start-HasRoom (suc (suc zero)) = omega arith
start-HasRoom (suc (suc (suc i))) =
    omega (arith, ap count_in (find_sft-none (suc (suc (suc i))) (omega arith)))

start_held : (i : ℕ) → i ≢ no_file → refs start.filetab i + elsewhere i ≤ count_of start.tables i
unfolding find_sft
start_held zero real = omega arith
start_held (suc zero) real = omega arith
start_held (suc (suc i)) real =
    let nobody : refs start.filetab (suc (suc i)) ≡ 0 = ground arith in omega arith

start-IsLive : IsLive elsewhere start
start-IsLive = record { held = start_held; within = omega arith }

dos_open_lem_example :
    Fails start (dos_open opens 2 0 start) ⊎ Gives start (dos_open opens 2 0 start)
dos_open_lem_example = dos_open_lem opens 2 0 start start-IsFew

step-IsLive_example : IsLive elsewhere ((step (Call.force_dup closes 2 0) start).1)
step-IsLive_example =
    step-IsLive elsewhere (Call.force_dup closes 2 0) start closes-Lowers start-HasRoom start-IsFew
      start-IsLive

dos_close-dos_dup_example :
    ((dos_dup closes 2 start).0 ≡ pos 3)
    × (dos_close closes 3 ((dos_dup closes 2 start).1) ≡ (success, start))
unfolding get_sft_idx find_sft get_free_hndl free_place
dos_close-dos_dup_example =
    dos_close-dos_dup closes closes 2 3 1 (entry SftKind.file 1) start refl (refl, omega arith)
      (omega arith) refl (omega arith) refl

open_result : dos_open opens 2 0 start ≡ (
  pos (3 + 65536),
  record start {
    tables =
        (entry (SftKind.device false) 3 ∷ entry SftKind.file 1 ∷ [])
        ∷ (record (entry SftKind.file 1) { sft_shroff = pos 7 } ∷ [])
        ∷ [];
    filetab = 0 ∷ 0 ∷ 1 ∷ 2 ∷ 255 ∷ [];
  },
)
unfolding dos_open dos_open_sft open_in open_disk get_free_sft free_in_table get_free_hndl
    free_place put_sft
open_result = refl

-- The last handle of a file is closed: SHARE is told.
close_result : dos_close closes 2 start ≡ (
  success,
  record {
    tables =
        (entry (SftKind.device false) 3
          ∷ record (entry SftKind.file 0) { sft_shroff = negsuc 0 }
          ∷ [])
        ∷ (entry SftKind.file 0 ∷ [])
        ∷ [];
    filetab = 0 ∷ 0 ∷ 255 ∷ 255 ∷ 255 ∷ [];
    maxfiles = 5;
    share_closed = pos 4 ∷ [];
  },
)
unfolding dos_close dos_close_sft close_sft get_sft_idx idx_to_sft find_sft put_sft
close_result = refl

-- A handle that is duplicated onto itself is closed, and its entry counts a holder all the same.
dup_on_itself : dos_force_dup closes 2 2 start ≡ (
  success,
  record {
    tables =
        (entry (SftKind.device false) 3
          ∷ record (entry SftKind.file 1) { sft_shroff = negsuc 0 }
          ∷ [])
        ∷ (entry SftKind.file 0 ∷ [])
        ∷ [];
    filetab = 0 ∷ 0 ∷ 255 ∷ 255 ∷ 255 ∷ [];
    maxfiles = 5;
    share_closed = pos 4 ∷ [];
  },
)
unfolding dos_force_dup duplicate dos_close dos_close_sft close_sft get_sft_idx idx_to_sft find_sft
    put_sft
dup_on_itself = refl

-- The driver refuses, and no handle leads to the entry that was taken.
leak :
    dos_open
      (record opens { path = PathKind.on_device true; focrm = true; device_opened = false })
      2
      0
      start
    ≡ (
      negsuc 4,
      record start {
        tables =
            (entry (SftKind.device false) 3 ∷ entry SftKind.file 1 ∷ [])
            ∷ (record (entry (SftKind.device true) 1) { sft_shroff = negsuc 0 } ∷ [])
            ∷ [];
      },
    )
unfolding dos_open dos_open_sft open_in open_device get_free_sft free_in_table get_free_hndl
    free_place put_sft
leak = refl
