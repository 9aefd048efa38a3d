-- ===== src/BlockIo/Examples.antt =====
-- A drive in memory, and runs of kernel/blockio.c on it.
use fdkernel.Common.{
  ℕ, ◌+◌, ◌≡◌, ◌≢◌, refl, Bool, true, false, ◌&&◌, [], ◌∷◌, ◌==◌, if◌then◌else◌, arith, ltb, leb,
  not,
}
use fdkernel.Fat.State.{Flags}
use fdkernel.BlockIo.Transfer.{
  transfer, command, request, answer, Driver, Request, Reply, block_of, c_input, dskxfer, dsk_write,
}
use fdkernel.BlockIo.Device.{IsHonest, same_place, Ends, UnchangedBut, dskxfer-write}
use fdkernel.BlockIo.Cache.{
  Buf, Cache, getblk, victim, first_where, last_where, last_of, fat_count, fill, flush1, write_back,
  flush, dirty_buffers, no_flags, valid_data, searchblock,
}
use fdkernel.BlockIo.Coherence.{same_place_iff}
use fdkernel.BlockIo.Fetch.{IsCoherent, view}
use fdkernel.BlockIo.Miss.{Outcome}
use fdkernel.BlockIo.GetBlock.{getblk_lem}
use fdkernel.BlockIo.Sync.{Synced, flush_lem, dirty_buffers_lem}

abbrev Disks : Type 0
Disks = ℕ → ℕ → ℕ

abbrev memory_drive : Driver ℕ
memory_drive = record {
  World = Disks;
  present = λ dsk. ltb dsk 4;
  huge = λ dsk. false;
  execrh = λ dsk r buf w. (
    256,
    if r.r_command == c_input then w dsk (block_of r) else buf,
    λ u b. if not (r.r_command == c_input) && same_place dsk (block_of r) u b then buf else w u b,
  );
}

output_lem : (r : Request) → r.r_command ≢ c_input → (r.r_command == c_input) ≡ false
output_lem r e = ground arith

memory_writes :
    (dsk : ℕ) (r : Request) (buf : ℕ) (w : Disks)
    → r.r_command ≢ c_input
    → (memory_drive.execrh dsk r buf w).2 dsk (block_of r) ≡ buf
memory_writes dsk r buf w e =
    let here : same_place dsk (block_of r) dsk (block_of r) ≡ true =
      (same_place_iff dsk (block_of r) dsk (block_of r)).1 (refl, refl) in
    rw (output_lem r e, here)

memory_keeps :
    (dsk : ℕ) (r : Request) (buf : ℕ) (w : Disks)
    → r.r_command ≢ c_input
    → ((memory_drive.execrh dsk r buf w).1 ≡ buf)
      × ((u b : ℕ)
          → same_place dsk (block_of r) u b ≡ false
          → (memory_drive.execrh dsk r buf w).2 u b ≡ w u b)
memory_keeps dsk r buf w e = (rw (output_lem r e), λ u b away. rw (output_lem r e, away))

abbrev memory_drive-IsHonest : IsHonest memory_drive
memory_drive-IsHonest = record {
  content = λ w. w;
  sets_done = λ dsk r buf w. refl;
  reads = λ dsk r buf w e d. rw e refl;
  reads_keep = λ dsk r buf w e u b. rw e refl;
  writes = λ dsk r buf w e d. memory_writes dsk r buf w e;
  writes_keep = memory_keeps;
}

abbrev dirty_fat : Flags
dirty_fat = record no_flags { valid = true; dirty = true; fat_area = true }

-- A FAT sector with two copies, not yet written, and a clean data sector.
abbrev fat_buffer : Buf ℕ
fat_buffer = record {
  b_unit = 2;
  b_flag = dirty_fat;
  b_blkno = 1;
  b_copies = 2;
  b_offset = 9;
  b_xfatsize = 0;
  b_buffer = 77;
}

abbrev data_buffer : Buf ℕ
data_buffer = record {
  b_unit = 2;
  b_flag = valid_data;
  b_blkno = 40;
  b_copies = 1;
  b_offset = 0;
  b_xfatsize = 0;
  b_buffer = 42;
}

abbrev two_buffers : Cache memory_drive
two_buffers = record {
  first = data_buffer;
  others = fat_buffer ∷ [];
  env = record { world = λ u b. b + 2; replies = Reply.retry ∷ []; verify = true };
}

-- The second copy of the FAT.
abbrev second_copy : ℕ → ℕ → Bool
second_copy u b = leb 10 b && leb b 18

two_buffers-IsCoherent : IsCoherent memory_drive memory_drive-IsHonest second_copy two_buffers
two_buffers-IsCoherent = record {
  one_holder = λ u b. ground arith;
  fits = (
    λ valid. record { main = refl; small = omega arith; clean = λ e. refl; copied = λ e. cc },
    (
      λ valid. record {
        main = refl;
        small = omega arith;
        clean = λ e. cc;
        copied = λ e. (1, refl, (refl, tt));
      },
      tt,
    ),
  );
  strict = (λ e. cc, tt);
}

getblk_lem_example :
    Outcome memory_drive memory_drive-IsHonest second_copy 50 2 false
      (view memory_drive memory_drive-IsHonest second_copy two_buffers)
      (getblk memory_drive 50 2 false two_buffers)
getblk_lem_example =
    getblk_lem memory_drive memory_drive-IsHonest second_copy 50 2 false two_buffers
      two_buffers-IsCoherent refl (omega arith)

flush_lem_example :
    Synced memory_drive memory_drive-IsHonest second_copy
      (data_buffer ∷ fat_buffer ∷ [])
      (two_buffers.env.world)
      (flush memory_drive (data_buffer ∷ fat_buffer ∷ []) two_buffers.env)
flush_lem_example =
    flush_lem memory_drive memory_drive-IsHonest second_copy two_buffers two_buffers-IsCoherent

dirty_buffers_lem_example :
    view memory_drive memory_drive-IsHonest second_copy two_buffers 1 40 ≡ 42
unfolding dirty_buffers
dirty_buffers_lem_example =
    dirty_buffers_lem memory_drive memory_drive-IsHonest second_copy 1 40 two_buffers
      two_buffers-IsCoherent refl

-- A drive that cannot read block 50 and leaves a zero in the buffer.
abbrev broken_drive : Driver ℕ
broken_drive = record memory_drive {
  execrh =
      λ dsk r buf w. if block_of r == 50 then (33024, 0, w) else memory_drive.execrh dsk r buf w;
}

abbrev one_buffer : Cache broken_drive
one_buffer = record {
  first = data_buffer;
  others = [];
  env = record { world = λ u b. b + 2; replies = Reply.fail ∷ []; verify = false };
}

-- After the failed read the buffer still passes for block 40, with the wrong data.
stale_run :
    let after = getblk broken_drive 50 2 false one_buffer in
    let again = getblk broken_drive 40 2 false after.1 in
    (after.0 ≡ false) × (again.0 ≡ true) × (again.1.first.b_buffer ≡ 0)
unfolding getblk searchblock victim first_where last_where last_of fat_count fill flush1 write_back
    dskxfer transfer command request answer
stale_run = (refl, refl, refl)

dskxfer-write_example :
    Ends memory_drive
      (λ buf w. UnchangedBut memory_drive memory_drive-IsHonest 2 7 two_buffers.env.world w)
      (λ buf w.
        UnchangedBut memory_drive memory_drive-IsHonest 2 7 two_buffers.env.world w × (w 2 7 ≡ 5))
      (dskxfer memory_drive 2 7 5 dsk_write two_buffers.env)
dskxfer-write_example =
    dskxfer-write memory_drive memory_drive-IsHonest 2 7 5 two_buffers.env (omega arith)
      (λ e. cc, tt)
