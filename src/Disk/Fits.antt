-- ===== src/Disk/Fits.antt =====
-- kernel/initdisk.c: the FAT that `CalculateFATData` lays out holds an entry for each cluster.
use fdkernel.Common.{
  ℕ, ◌+◌, ◌-◌, ◌*◌, ◌/◌, ◌%◌, ◌^◌, ◌≤◌, ◌≡◌, ◌⊎◌, inl, inr, Bool, true, false, ◌||◌, ltb, ◌==◌,
  if◌then◌else◌, arith, Bool-cases, ap,
}
use fdkernel.Disk.Sizes.{
  DefBpb, try_sizes, fat12_sizes, fatdata16, fat16_word, fat16_kind, fat32_kind, fat32_nsector,
  sized, fat16max, fat32max, calculate_fat_data, type_is_fat12, type_is_fat32,
}
use fdkernel.Disk.Tries.{none_accepted, IsTaken, IsTried, taken_lem, try_sizes_lem}

-- The bits of an entry, the most sectors that are laid out, and the bounds of the clusters.
abbrev pub entry_bits : ℕ → ℕ
entry_bits file_system =
    if type_is_fat12 file_system then 12 else (if type_is_fat32 file_system then 32 else 16)

abbrev pub most_sectors : ℕ → ℕ
most_sectors file_system =
    if type_is_fat12 file_system
    then 32673
    else (if type_is_fat32 file_system then 4294836224 else 8386721)

abbrev pub fewest_clusters : ℕ → ℕ
fewest_clusters file_system = if type_is_fat12 file_system then 0 else 4086

abbrev pub cluster_limit : ℕ → ℕ
cluster_limit file_system =
    if type_is_fat12 file_system
    then 4079
    else (if type_is_fat32 file_system then fat32max else fat16max)

-- The clusters that the sectors behind the FATs and the root directory hold.
abbrev pub data_clusters : ℕ → DefBpb → ℕ
data_clusters n b = (n - b.bpb_nreserved - b.bpb_ndirent / 16 - 2 * b.fat_length) / b.bpb_nsector

-- All parts fit into `n` sectors, and a FAT with entries of `bits` bits has one for each cluster
-- and for the two numbers before the first cluster.
abbrev pub IsFormat : ℕ → ℕ → DefBpb → Type 0
IsFormat bits n b =
    (b.bpb_nreserved + b.bpb_ndirent / 16 + 2 * b.fat_length ≤ n)
    × ((data_clusters n b + 2) * bits ≤ b.fat_length * 4096)

-- The format, with a number of clusters that the file system takes for that kind of FAT.
abbrev pub IsLaidOut : ℕ → ℕ → DefBpb → Type 0
IsLaidOut file_system n b =
    IsFormat (entry_bits file_system) n b
    × (fewest_clusters file_system ≤ data_clusters n b)
    × (data_clusters n b + 2 ≤ cluster_limit file_system)

abbrev pub no_size : DefBpb → Bool
no_size b = b.bpb_nsector == 0 || ltb 128 b.bpb_nsector

fat12_sizes-IsFormat :
    (n : ℕ)
    → 64 ≤ n
    → n ≤ 32673
    → IsFormat 12 n (fat12_sizes (fatdata16 n))
      × (data_clusters n (fat12_sizes (fatdata16 n)) + 2 ≤ 4079)
fat12_sizes-IsFormat n some_room few = ground arith

-- The sizes of clusters that are tried for a partition.
abbrev pub all_refused : ℕ → ℕ → Bool
all_refused file_system n =
    if type_is_fat12 file_system
    then false
    else (if type_is_fat32 file_system
        then none_accepted (fat32_kind n) 8 (fat32_nsector n)
        else none_accepted (fat16_kind n) 8 4)

fat16_lem :
    (n ns len : ℕ)
    → 64 ≤ n
    → n ≤ 8386721
    → IsTaken (fat16_kind n) ns len
    → IsFormat 16 n (sized 512 1 (ns, len % 2 ^ 16))
      × (4086 ≤ data_clusters n (sized 512 1 (ns, len % 2 ^ 16)))
      × (data_clusters n (sized 512 1 (ns, len % 2 ^ 16)) + 2 ≤ fat16max)
fat16_lem n ns len some_room few taken =
    let k = fat16_kind n in
    let data_is : k.fatdata ≡ n - 33 = ground arith in
    let (room, entries, above, below, short) =
      taken_lem k ns len
        (omega arith, omega arith, omega arith, omega arith, omega arith, omega arith) taken in
    let word : len % 2 ^ 16 ≡ len = omega arith in
    let clusters : (n - 1 - 32 - 2 * (len % 2 ^ 16)) / ns ≡ (k.fatdata - 2 * len) / ns =
      ap (λ x. x / ns) (omega arith) in
    ((omega arith, omega arith), omega arith, omega arith)

fat32_lem :
    (n ns len : ℕ)
    → 64 ≤ n
    → n ≤ 4294836224
    → IsTaken (fat32_kind n) ns len
    → IsFormat 32 n (sized 0 32 (ns, len))
      × (4086 ≤ data_clusters n (sized 0 32 (ns, len)))
      × (data_clusters n (sized 0 32 (ns, len)) + 2 ≤ fat32max)
fat32_lem n ns len some_room few taken =
    let k = fat32_kind n in
    let data_is : k.fatdata ≡ n - 32 = ground arith in
    let (room, entries, above, below, short) =
      taken_lem k ns len
        (omega arith, omega arith, omega arith, omega arith, omega arith, omega arith) taken in
    let clusters : (n - 32 - 0 - 2 * len) / ns ≡ (k.fatdata - 2 * len) / ns =
      ap (λ x. x / ns) (omega arith) in
    ((omega arith, omega arith), omega arith, omega arith)

fat32_nsector_bounds : (n : ℕ) → (1 ≤ fat32_nsector n) × (fat32_nsector n ≤ 64)
fat32_nsector_bounds n = ground arith

fat16_result :
    (n : ℕ)
    → 64 ≤ n
    → n ≤ 8386721
    → (r : ℕ × ℕ) → IsTried (fat16_kind n) 8 (4) r
    → ((no_size (sized 512 1 (fat16_word r)) ≡ true) × (none_accepted (fat16_kind n) 8 4 ≡ true))
      ⊎ (IsFormat 16 n (sized 512 1 (fat16_word r))
          × (4086 ≤ data_clusters n (sized 512 1 (fat16_word r)))
          × (data_clusters n (sized 512 1 (fat16_word r)) + 2 ≤ fat16max))
fat16_result n some_room few (ns, len) (inl ends) = inl ends
fat16_result n some_room few (ns, len) (inr taken) = inr (fat16_lem n ns len some_room few taken)

fat32_result :
    (n : ℕ)
    → 64 ≤ n
    → n ≤ 4294836224
    → (r : ℕ × ℕ) → IsTried (fat32_kind n) 8 (fat32_nsector n) r
    → ((no_size (sized 0 32 r) ≡ true) × (none_accepted (fat32_kind n) 8 (fat32_nsector n) ≡ true))
      ⊎ (IsFormat 32 n (sized 0 32 r)
          × (4086 ≤ data_clusters n (sized 0 32 r))
          × (data_clusters n (sized 0 32 r) + 2 ≤ fat32max))
fat32_result n some_room few (ns, len) (inl ends) = inl ends
fat32_result n some_room few (ns, len) (inr taken) = inr (fat32_lem n ns len some_room few taken)

-- A partition that `CalculateFATData` lays out, of 64 sectors up to the most it is made for: either
-- it is no FAT12, no cluster size of up to 128 sectors is accepted and none is left, or the FATs, the root directory and the clusters
-- fit, the FAT has an entry for each cluster, and their number is one of that kind of FAT.
pub calculate_fat_data_lem :
    (n file_system : ℕ)
    → 64 ≤ n
    → n ≤ most_sectors file_system
    → ((no_size (calculate_fat_data n file_system) ≡ true) × (all_refused file_system n ≡ true))
      ⊎ IsLaidOut file_system n (calculate_fat_data n file_system)
unfolding calculate_fat_data
calculate_fat_data_lem n file_system some_room few = elim (Bool-cases (type_is_fat12 file_system)) [
  | inl twelve ↦
      let few' : n ≤ 32673 = ground arith in
      let (format, count) = fat12_sizes-IsFormat n some_room few' in
      rw twelve (inr (format, omega arith, count))
  | inr other ↦ elim (Bool-cases (type_is_fat32 file_system)) [
    | inl wide ↦
        let (positive, small) = fat32_nsector_bounds n in
        let few' : n ≤ 4294836224 = ground arith in
        rw other (
          rw wide (
            fat32_result n some_room few' (try_sizes (fat32_kind n) 8 (fat32_nsector n)) (
              try_sizes_lem (fat32_kind n) 8 (fat32_nsector n) positive (omega arith)
                (omega arith))))
    | inr narrow ↦
        let few' : n ≤ 8386721 = ground arith in
        rw other (
          rw narrow (
            fat16_result n some_room few' (try_sizes (fat16_kind n) 8 4)
              (try_sizes_lem (fat16_kind n) 8 4 (omega arith) (omega arith) (omega arith))))
  ]
]
