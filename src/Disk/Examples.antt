-- ===== src/Disk/Examples.antt =====
-- Runs of kernel/dsk.c on a small disk, and formats of kernel/initdisk.c.
use fdkernel.Common.{
  ℕ, ◌+◌, ◌*◌, ◌≤◌, ◌<◌, ◌≡◌, ◌⊎◌, refl, true, false, [], ◌∷◌, ◌==◌, if◌then◌else◌, none, some,
  arith,
}
use fdkernel.MemMgr.Walk.{adjust_far}
use fdkernel.Disk.Geometry.{Bpb, Chs, lba_to_chs, lba_of, IsPlace, lba_to_chs_lem, dma_max_transfer}
use fdkernel.Disk.Sizes.{calculate_fat_data, try_sizes, is_accepted}
use fdkernel.Disk.Fits.{no_size, all_refused, IsLaidOut, calculate_fat_data_lem}
use fdkernel.Disk.Transfer.{
  LbaMode, Ddt, BiosCall, Session, Result, lba_transfer, transfer_loop, transfer_chunk, retry,
  try_once, lba_attempt, chs_attempt,
}
use fdkernel.Disk.Sectors.{IsEnd}
use fdkernel.Disk.Whole.{IsCovered, lba_transfer_lem}

-- 18 sectors and 2 heads.
abbrev small : Bpb
small = record { bpb_nsecs = 18; bpb_nheads = 2 }

abbrev floppy : Ddt
floppy = record {
  hard_disk = false;
  lba = false;
  wrtverify = false;
  dma_transparent = false;
  bpb_nbyte = 512;
  geometry = small;
}

-- A BIOS that fails once.
abbrev fresh : Session
fresh = record { answers = λ i. if i == 0 then 128 else 0; calls = 0; log = []; int1e_nsecs = 18 }

-- Four sectors from 16 on: two that are left of the track, after a failure, and two of the next head.
abbrev four : Result
four = lba_transfer floppy LbaMode.lba_read 512 (4096, 0) 16 4 fresh

abbrev at : ℕ → ℕ → Chs
at head sector = record { cylinder = 0; head = head; sector = sector }

four_lem :
    four.session.log
    ≡ (BiosCall.chs_call LbaMode.lba_read (at 1 1) 2 (some (4160, 0)), 0)
      ∷ (BiosCall.chs_call LbaMode.lba_read (at 0 17) 2 (some (4096, 0)), 0)
      ∷ (BiosCall.reset, 0)
      ∷ (BiosCall.chs_call LbaMode.lba_read (at 0 17) 2 (some (4096, 0)), 128)
      ∷ []
unfolding lba_transfer transfer_loop transfer_chunk retry try_once chs_attempt lba_to_chs
    dma_max_transfer adjust_far
four_lem = refl

-- A drive that minds no boundary: a packet of 300 sectors is sent as one of 44, and counted in full.
abbrev transparent : Ddt
transparent = record {
  hard_disk = true;
  lba = true;
  wrtverify = false;
  dma_transparent = true;
  bpb_nbyte = 512;
  geometry = small;
}

abbrev ready : Session
ready = record { answers = λ i. 0; calls = 0; log = []; int1e_nsecs = 18 }

abbrev many : Result
many = lba_transfer transparent LbaMode.lba_read 512 (4096, 0) 0 300 ready

many_lem :
    (many.session.log ≡ (BiosCall.lba_call LbaMode.lba_read 44 0 (some (4096, 0)), 0) ∷ [])
    × (many.transferred ≡ 300)
    × (many.error_code ≡ 0)
unfolding lba_transfer transfer_loop transfer_chunk retry try_once lba_attempt adjust_far
many_lem = (refl, refl, refl)

-- A FAT16 of 10000 sectors has too few clusters at any size: no size is left.
no_size_lem : (calculate_fat_data 10000 4).bpb_nsector ≡ 0
unfolding calculate_fat_data try_sizes is_accepted
no_size_lem = refl

-- One of 65536 sectors has clusters of four.
size_lem :
    ((calculate_fat_data 65536 6).bpb_nsector ≡ 4) × ((calculate_fat_data 65536 6).fat_length ≡ 64)
unfolding calculate_fat_data try_sizes is_accepted
size_lem = (refl, refl)

lba_to_chs_lem_example :
    ((lba_to_chs small 100 ≡ none) × (1024 * (18 * 2) ≤ 100))
    ⊎ ((c : Chs) × (lba_to_chs small 100 ≡ some c) × IsPlace small c × (lba_of small c ≡ 100))
lba_to_chs_lem_example = lba_to_chs_lem small 100 (omega arith) (omega arith) (omega arith)

calculate_fat_data_lem_example :
    ((no_size (calculate_fat_data 65536 6) ≡ true) × (all_refused 6 65536 ≡ true))
    ⊎ IsLaidOut 6 65536 (calculate_fat_data 65536 6)
calculate_fat_data_lem_example = calculate_fat_data_lem 65536 6 (omega arith) (omega arith)

lba_transfer_lem_example :
    IsEnd floppy 512 16 (16 + 4) four
    × ((0 < four.error_code)
        ⊎ ((x : ℕ)
            → 16 ≤ x
            → x < 16 + 4
            → IsCovered floppy LbaMode.lba_read 512 65536 16 (16 + 4) four.session.log x))
lba_transfer_lem_example =
    lba_transfer_lem floppy 512 16 4 LbaMode.lba_read (4096, 0) fresh
      ((omega arith, omega arith, omega arith), omega arith, omega arith, refl) (omega arith) refl
      refl (omega arith) (omega arith)
