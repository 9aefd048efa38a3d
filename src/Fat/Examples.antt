-- ===== src/Fat/Examples.antt =====
-- Runs of kernel/fattab.c on a small diskette.
use fdkernel.Common.{
  ℕ, ◌+◌, ◌<◌, ◌≡◌, ◌⊎◌, inl, refl, true, false, some, arith, if◌then◌else◌, ◌==◌,
}
use fdkernel.Fat.State.{Dpb, Buffer, Drive, read_cluster}
use fdkernel.Fat.Link.{unpack, link_fat, next_cluster, entry_of_12}
use fdkernel.Fat.Packed.{entry_at, store_at}
use fdkernel.Fat.Places.{IsFat12}
use fdkernel.Fat.Twelve.{flat}
use fdkernel.Fat.Table.{Sound, IsCluster, link_fat-write, free_count, one_if}
use fdkernel.Fat.RoundTrip.{link_fat-link_fat}
use fdkernel.Fat.Chain.{next_cluster_lem, value_of, InUse, IsNext}

abbrev diskette : Dpb
diskette = record {
  secsize = 512;
  fatstrt = 1;
  fats = 2;
  size = 400;
  fatsize = 2;
  xnfreeclst = 100;
  xflags = 0;
  xfsinfosec = 65535;
  xsize = 400;
  xfatsize = 0;
  xcluster = 0;
}

abbrev blank : Buffer
blank = record {
  b_flag = record {
    dirty = false;
    valid = true;
    data_area = true;
    dir_area = false;
    fat_area = false;
    uncache = false;
  };
  b_copies = 1;
  b_offset = 0;
  b_buffer = λ i. 0;
}

abbrev empty_drive : Drive
empty_drive = record { dpb = diskette; readable = λ n. true; block = λ n. blank }

diskette-IsFat12 : IsFat12 diskette
diskette-IsFat12 = record {
  sector = omega arith;
  sector_short = omega arith;
  clusters = omega arith;
  clusters_few = omega arith;
  sectors = λ e. omega arith;
  start = omega arith;
}

empty_drive-Sound : Sound empty_drive
empty_drive-Sound = record { kind = diskette-IsFat12; can_read = λ p below. refl }

link_fat-write_example :
    (t : Drive) × (link_fat 341 5 empty_drive ≡ some (0, t))
    × (flat t ≡ store_at (flat empty_drive) 341 5)
    × Sound t
    × (t.dpb.size ≡ empty_drive.dpb.size)
    × (0 < free_count empty_drive
        → free_count empty_drive < 65534
        → free_count t + one_if (entry_at (flat empty_drive) 341 == 0)
          ≡ free_count empty_drive + one_if (5 == 0))
link_fat-write_example =
    link_fat-write 341 5 empty_drive empty_drive-Sound (omega arith, omega arith)
      (λ e. omega arith, inl (omega arith))

link_fat-link_fat_example :
    (t u w : Drive) × (before : ℕ) × (link_fat 341 5 empty_drive ≡ some (0, t))
    × (link_fat 342 read_cluster empty_drive ≡ some (before, u))
    × (link_fat 342 read_cluster t ≡ some (if 341 == 342 then 5 else before, w))
link_fat-link_fat_example =
    link_fat-link_fat 341 5 342 empty_drive empty_drive-Sound (omega arith, omega arith)
      (λ e. omega arith, inl (omega arith)) (omega arith, omega arith)

-- A chain of the clusters 2 and 3: the entries 003 and FFF in the bytes 3 to 5 of the table.
abbrev chained : Buffer
chained = record blank {
  b_buffer = λ i. if i == 3 then 3 else (if i == 4 then 240 else (if i == 5 then 255 else 0));
}

abbrev chained_drive : Drive
chained_drive = record { dpb = diskette; readable = λ n. true; block = λ n. chained }

chained_drive-Sound : Sound chained_drive
chained_drive-Sound = record { kind = diskette-IsFat12; can_read = λ p below. refl }

value_of_run : (value_of chained_drive 2 ≡ 3) × (value_of chained_drive 3 ≡ 268435455)
unfolding entry_at entry_of_12 unpack
value_of_run = (refl, refl)

next_cluster_lem_example :
    (r : ℕ) × (t : Drive) × (next_cluster 2 chained_drive ≡ some (r, t))
    × (flat t ≡ flat chained_drive)
    × (t.dpb ≡ chained_drive.dpb)
    × Sound t
    × (((r ≡ value_of chained_drive 2) × (¬ IsNext (value_of chained_drive 2)))
        ⊎ (((r ≡ value_of chained_drive 2)
              × IsCluster chained_drive (value_of chained_drive 2)
              × InUse chained_drive (value_of chained_drive 2))
            ⊎ ((r ≡ 1)
                × IsNext (value_of chained_drive 2)
                × ((IsCluster chained_drive (value_of chained_drive 2)
                      × (¬ InUse chained_drive (value_of chained_drive 2)))
                    ⊎ (400 < value_of chained_drive 2)))))
next_cluster_lem_example =
    next_cluster_lem 2 chained_drive chained_drive-Sound (omega arith, omega arith)
