-- ===== src/Disk/Sizes.antt =====
-- kernel/initdisk.c: `CalculateFATData`, built with WITHFAT32.
use fdkernel.Common.{
  ℕ, zero, suc, ◌+◌, ◌-◌, ◌*◌, ◌/◌, ◌%◌, ◌^◌, Bool, ◌&&◌, ◌||◌, ltb, leb, ◌==◌, if◌then◌else◌,
}

abbrev pub maxclustsize : ℕ
maxclustsize = 128

abbrev pub nsectorfat12 : ℕ
nsectorfat12 = 8

abbrev pub n_fat : ℕ
n_fat = 2

abbrev pub floppy_sec_size : ℕ
floppy_sec_size = 512

abbrev pub fat_magic : ℕ
fat_magic = 4085

abbrev pub fat16max : ℕ
fat16max = 65519

abbrev pub fat32max : ℕ
fat32max = 268435449

abbrev pub type_is_fat12 : ℕ → Bool
type_is_fat12 file_system = file_system == 1 || file_system == 255

abbrev pub type_is_fat32 : ℕ → Bool
type_is_fat32 file_system = file_system == 11 || file_system == 12

-- The fields of the default BPB that are set; `fat_length` is `bpb_nfsect`, or `bpb_xnfsect` where
-- the FAT has entries of 32 bits.
pub record DefBpb : Type 0 where
  pub bpb_ndirent : ℕ
  pub bpb_nreserved : ℕ
  pub bpb_nsector : ℕ
  pub fat_length : ℕ

abbrev pub cdiv : ℕ → ℕ → ℕ
cdiv a b = (a + b - 1) / b

abbrev pub min : ℕ → ℕ → ℕ
min a b = if ltb b a then b else a

abbrev pub fat12_sizes : ℕ → DefBpb
fat12_sizes fatdata = record {
  bpb_ndirent = 512;
  bpb_nreserved = 1;
  bpb_nsector = nsectorfat12;
  fat_length =
      cdiv ((min fatdata 32640 + 2 * nsectorfat12) % 2 ^ 16 * 3)
        (floppy_sec_size * 2 * nsectorfat12 + n_fat * 3)
      % 2 ^ 16;
}

-- What differs between FAT16 and FAT32: the sectors of the FAT and the data, the entries of a
-- sector of the FAT, and the most clusters.
pub record Kind : Type 0 where
  pub fatdata : ℕ
  pub fatentpersec : ℕ
  pub maxcl : ℕ

abbrev pub sizes_length : Kind → ℕ → ℕ
sizes_length k nsector =
    let divisor = (k.fatentpersec * nsector + n_fat) % 2 ^ 16 in
    (k.fatdata + (2 * nsector + divisor - 1) % 2 ^ 16) % 2 ^ 32 / divisor

abbrev pub sizes_clust : Kind → ℕ → ℕ
sizes_clust k nsector =
    (k.fatdata + 2 ^ 32 - n_fat * sizes_length k nsector % 2 ^ 32) % 2 ^ 32 / nsector

abbrev pub sizes_maxclust : Kind → ℕ → ℕ
sizes_maxclust k nsector = min (sizes_length k nsector * k.fatentpersec % 2 ^ 32) k.maxcl

-- The number of clusters is neither too large nor that of a FAT12.
unfoldable pub is_accepted : Kind → ℕ → Bool
is_accepted k nsector =
    leb (sizes_clust k nsector) ((sizes_maxclust k nsector + 2 ^ 32 - 2) % 2 ^ 32)
    && ltb fat_magic (sizes_clust k nsector)

-- The loop: the sectors of a cluster, and the length of the FAT that was tried last. A cluster
-- doubles in a byte, so eight rounds are enough.
unfoldable pub try_sizes : Kind → ℕ → ℕ → ℕ × ℕ
try_sizes k zero nsector = (nsector, sizes_length k nsector)
try_sizes k (suc fuel) nsector =
    let next = nsector * 2 % 2 ^ 8 in
    let rest = try_sizes k fuel next in
    if is_accepted k nsector
    then (nsector, sizes_length k nsector)
    else (if next == 0 || ltb maxclustsize next then (next, sizes_length k nsector) else rest)

-- The first cluster size of a FAT32.
abbrev pub fat32_nsector : ℕ → ℕ
fat32_nsector num_sectors =
    let sz_gb = num_sectors / 2097152 % 2 ^ 16 in
    if leb num_sectors 532480
    then 1
    else (if leb sz_gb 8
        then 8
        else (if leb sz_gb 16 then 16 else (if leb sz_gb 32 then 32 else 64)))

abbrev pub fat32_kind : ℕ → Kind
fat32_kind num_sectors = record {
  fatdata = (num_sectors + 2 ^ 32 - 32) % 2 ^ 32;
  fatentpersec = floppy_sec_size / 4;
  maxcl = fat32max;
}

-- The 33 sectors are the boot sector and the root directory.
abbrev pub fatdata16 : ℕ → ℕ
fatdata16 num_sectors = (num_sectors + 2 ^ 32 - 33) % 2 ^ 32

abbrev pub fat16_kind : ℕ → Kind
fat16_kind num_sectors = record {
  fatdata = min (fatdata16 num_sectors) 8386688;
  fatentpersec = floppy_sec_size / 2;
  maxcl = fat16max;
}

abbrev pub sized : ℕ → ℕ → ℕ × ℕ → DefBpb
sized ndirent nreserved (nsector, len) = record {
  bpb_ndirent = ndirent;
  bpb_nreserved = nreserved;
  bpb_nsector = nsector;
  fat_length = len;
}

abbrev pub fat16_word : ℕ × ℕ → ℕ × ℕ
fat16_word (nsector, len) = (nsector, len % 2 ^ 16)

unfoldable pub calculate_fat_data : ℕ → ℕ → DefBpb
calculate_fat_data num_sectors file_system =
    if type_is_fat12 file_system
    then fat12_sizes (fatdata16 num_sectors)
    else (if type_is_fat32 file_system
        then sized 0 32 (try_sizes (fat32_kind num_sectors) 8 (fat32_nsector num_sectors))
        else sized 512 1 (fat16_word (try_sizes (fat16_kind num_sectors) 8 4)))
