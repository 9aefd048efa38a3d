-- ===== src/Share/Open/Close.antt =====
-- share/share.c: what `close_file` does to the two tables.
use fdkernel.Common.{
  ℕ, zero, suc, ◌<◌, ◌≡◌, ◌≢◌, refl, false, List, [], ◌∷◌, arith, ◌==◌, if◌then◌else◌, length,
  get_or,
}
use fdkernel.Share.State.{
  Lock, Share, file_at, first_byte, blank_lock, clear_name, free_file_table_entry,
}
use fdkernel.Share.Open.{remove_all_locks, close_file}
use fdkernel.Share.Open.Outcome.{store_file-Elsewhere, free_file_table_entry-unused}

remove_all_locks_lem :
    (n : ℕ) (ls : List Lock) (k : ℕ)
    → get_or (remove_all_locks n ls) k blank_lock ≡ (
        if (get_or ls k blank_lock).fileno == n
        then record (get_or ls k blank_lock) { used = false }
        else get_or ls k blank_lock)
unfolding remove_all_locks
remove_all_locks_lem n [] k = ground arith
remove_all_locks_lem n (l ∷ ls) zero = refl
remove_all_locks_lem n (l ∷ ls) (suc k) = remove_all_locks_lem n ls k

-- Closing entry `n` of the table makes it unused and drops exactly the locks taken through it:
-- every other entry, and every lock of another entry, stays as it was.
pub close_file_lem :
    (n : ℕ) (s : Share)
    → n < length s.file_table
    → (first_byte (file_at (close_file n s) n).filename ≡ 0)
      × ((j : ℕ) → n ≢ j → file_at (close_file n s) j ≡ file_at s j)
      × ((k : ℕ)
          → get_or (close_file n s).lock_table k blank_lock ≡ (
              if (get_or s.lock_table k blank_lock).fileno == n
              then record (get_or s.lock_table k blank_lock) { used = false }
              else get_or s.lock_table k blank_lock))
unfolding close_file free_file_table_entry
close_file_lem n s h =
    let t : Share = record s { lock_table = remove_all_locks n s.lock_table } in
    (
      free_file_table_entry-unused n t h,
      (store_file-Elsewhere t n (clear_name (file_at t n))).2,
      remove_all_locks_lem n s.lock_table,
    )
