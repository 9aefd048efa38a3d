-- ===== src/Share/Examples.antt =====
-- share/share.c: runs on a table of three files and three locks, and the theorems at them.
use fdkernel.Common.{
  ℕ, ◌<◌, ◌≡◌, ◌≢◌, ◌⊎◌, refl, true, false, List, [], ◌∷◌, arith, ◌==◌, if◌then◌else◌, length,
  get_or, All, pos, negsuc,
}
use fdkernel.Share.State.{File, Share, init, file_at, blank_lock, first_byte}
use fdkernel.Share.Names.{text, fnmatches, copy_name}
use fdkernel.Share.Modes.{Verdict, verdict, open_action, is_compatible}
use fdkernel.Share.Open.{
  open_check, close_file, conclude, find_unused, find_open, check_entry, do_open_check,
  valid_sharemode,
}
use fdkernel.Share.Open.Outcome.{Outcome, Elsewhere, open_check-Outcome}
use fdkernel.Share.Open.Agreement.{Agree, open_check-Agree, open_check-compatible}
use fdkernel.Share.Open.Close.{close_file_lem}
use fdkernel.Share.Locks.{
  access_check, lock_unlock, endofs, clipped_len, any_blocks, blocks, insert_lock,
}
use fdkernel.Share.Locks.Conflicts.{SomeStops, access_check_iff}
use fdkernel.Share.Locks.RoundTrip.{SameFiles, active, unlock-lock}
use fdkernel.Share.Handler.{Regs, handler2f}
use fdkernel.Share.Invariant.{Inv, InvAfter, init-Inv, open_check-Inv, handler2f-Inv}

abbrev name_a : List ℕ
name_a = b'C' ∷ b':' ∷ b'A' ∷ []

abbrev fresh : Share
fresh = init 402 3

-- Process 7 reads A and denies others to write.
abbrev one_reader : Share
one_reader = (open_check name_a 7 0 2 fresh).1

-- A second reader is let in.
abbrev two_readers : Share
two_readers = (open_check name_a 8 0 2 one_reader).1

-- Process 7 has locked bytes 10 to 19 of A.
abbrev locked : Share
locked = (lock_unlock 7 0 10 10 false two_readers).1

two_readers_run : open_check name_a 8 0 2 one_reader ≡ (pos 1, two_readers)
unfolding open_check do_open_check check_entry conclude verdict open_action init fnmatches find_open
    find_unused copy_name
two_readers_run = refl

writer_refused : (open_check name_a 9 1 2 one_reader).0 ≡ negsuc 4
unfolding open_check init fnmatches find_open find_unused copy_name verdict open_action
writer_refused = refl

-- A deny-none reader, then a reader that denies writing, then a writer, which is let in: the
-- check looks at the first open only.
late_writer :
    (open_check name_a 9 1 4 (open_check name_a 8 0 2 (open_check name_a 7 0 4 fresh).1).1).0
    ≡ pos 2
unfolding open_check init fnmatches find_open find_unused copy_name verdict open_action
late_writer = refl

-- Process 8 locks bytes 0 to 29, around the lock of process 7.
around : (lock_unlock 8 1 0 30 false locked).0 ≡ pos 0
unfolding lock_unlock access_check any_blocks blocks insert_lock endofs clipped_len open_check init
    fnmatches find_open find_unused copy_name verdict open_action
around = refl

-- Its request for bytes 15 to 29 is refused.
across : (lock_unlock 8 1 15 15 false locked).0 ≡ negsuc 32
unfolding lock_unlock access_check any_blocks blocks insert_lock endofs clipped_len open_check init
    fnmatches find_open find_unused copy_name verdict open_action
across = refl

one_reader-Inv : Inv one_reader
one_reader-Inv = open_check-Inv name_a 7 0 2 fresh (omega arith) (init-Inv 402 3)

open_check-Outcome_example :
    ((open_check name_a 8 0 2 one_reader ≡ (negsuc 0, one_reader))
      × All (λ (p : File). first_byte p.filename ≢ 0) one_reader.file_table)
    ⊎ ((slot : ℕ) × (slot < length one_reader.file_table)
        × (first_byte (file_at one_reader slot).filename ≡ 0)
        × Outcome name_a 8 0 2 slot one_reader (open_check name_a 8 0 2 one_reader)
        × Elsewhere slot one_reader (open_check name_a 8 0 2 one_reader).1)
open_check-Outcome_example =
    open_check-Outcome name_a 8 0 2 one_reader (omega arith) one_reader-Inv.well_formed

open_check-Agree_example : Agree two_readers
open_check-Agree_example = open_check-Agree name_a 8 0 2 one_reader one_reader-Inv.agree

open_check-compatible_example :
    (verdict (open_action 2 0 2 0) ≡ Verdict.proceed)
    × (((file_at one_reader 0).first_sharemode ≡ 0)
        ⊎ ((valid_sharemode 2 ≡ 0) ⊎ (is_compatible 2 0 2 0 ≡ true)))
unfolding open_check init fnmatches find_open find_unused copy_name verdict open_action text
open_check-compatible_example =
    open_check-compatible name_a 8 0 2 one_reader two_readers 1 0 (omega arith)
      one_reader-Inv.well_formed one_reader-Inv.agree refl (omega arith) refl

close_file_lem_example :
    (first_byte (file_at (close_file 0 locked) 0).filename ≡ 0)
    × ((j : ℕ) → 0 ≢ j → file_at (close_file 0 locked) j ≡ file_at locked j)
    × ((k : ℕ)
        → get_or (close_file 0 locked).lock_table k blank_lock ≡ (
            if (get_or locked.lock_table k blank_lock).fileno == 0
            then record (get_or locked.lock_table k blank_lock) { used = false }
            else get_or locked.lock_table k blank_lock))
unfolding lock_unlock access_check any_blocks blocks insert_lock endofs clipped_len open_check init
    fnmatches find_open find_unused copy_name verdict open_action
close_file_lem_example = close_file_lem 0 locked (omega arith)

access_check_iff_example :
    ((access_check 8 1 15 15 false locked ≡ (pos 0, locked))
      × ¬ SomeStops locked 8 (file_at locked 1).filename 15 30 locked.lock_table)
    ⊎ ((access_check 8 1 15 15 false locked ≡ (negsuc 32, locked))
        × SomeStops locked 8 (file_at locked 1).filename 15 30 locked.lock_table)
access_check_iff_example = access_check_iff 8 1 15 15 locked false (omega arith) (omega arith)

unlock-lock_example :
    (u : Share) × (lock_unlock 7 0 10 10 true locked ≡ (pos 0, u))
    × SameFiles two_readers u
    × (active u.lock_table ≡ active two_readers.lock_table)
unfolding lock_unlock access_check any_blocks blocks insert_lock endofs clipped_len open_check init
    fnmatches find_open find_unused copy_name verdict open_action
unlock-lock_example = unlock-lock 7 0 10 10 two_readers locked (omega arith) (omega arith) refl

abbrev open_regs : Regs
open_regs = record { ax = 0x10a0; bx = 8; cx = 0; dx = 2; si = 0; di = 0; ds = 0; es = 0 }

handler2f-Inv_example : InvAfter one_reader (handler2f (λ seg ofs. name_a) open_regs one_reader)
handler2f-Inv_example =
    handler2f-Inv (λ seg ofs. name_a) open_regs one_reader refl (omega arith) one_reader-Inv
