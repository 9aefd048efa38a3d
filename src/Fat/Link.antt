-- ===== src/Fat/Link.antt =====
-- kernel/fattab.c: `link_fat`, `next_cluster` and `is_free_cluster`. A result `none` is that of
-- `write_fsinfo`.
use fdkernel.Common.{
  ℕ, ◌+◌, ◌*◌, ◌/◌, ◌%◌, ◌^◌, Bool, ◌&&◌, ◌||◌, Option, none, some, ltb, leb, ◌==◌, if◌then◌else◌,
}
use fdkernel.Fat.State.{
  Dpb, Drive, is_fat32, is_fat16, is_fat12, long_last_cluster, long_bad, free, read_cluster, byte,
  put_byte, get_word, put_word, get_long, put_long, mark_dirty, no_mirroring, get_fat_block,
}
use fdkernel.Fat.FreeCount.{count_free}

abbrev pub max_cluster : Dpb → ℕ
max_cluster d = if is_fat32 d then d.xsize else d.size

-- Either an index out of range, or a bad value that would be written.
unfoldable pub refused : Dpb → ℕ → ℕ → Bool
refused d cluster1 cluster2 =
    leb cluster1 1
    || ltb (max_cluster d) cluster1
    || (ltb cluster2 long_bad && ltb (max_cluster d) cluster2)

-- Entries per sector, nibbles for FAT12.
abbrev pub secdiv : Dpb → ℕ
secdiv d =
    if is_fat12 d
    then d.secsize * 2 % 2 ^ 16
    else (if is_fat32 d then d.secsize / 2 / 2 else d.secsize / 2)

abbrev pub scaled : Dpb → ℕ → ℕ
scaled d cluster1 = if is_fat12 d then cluster1 % 2 ^ 16 * 3 % 2 ^ 16 else cluster1

unfoldable pub entry_index : Dpb → ℕ → ℕ
entry_index d cluster1 = scaled d cluster1 % secdiv d % 2 ^ 16

unfoldable pub entry_sector : Dpb → ℕ → ℕ
entry_sector d cluster1 =
    let first = scaled d cluster1 / secdiv d + d.fatstrt in
    (if is_fat32 d && no_mirroring d then first + d.xflags % 16 * d.xfatsize else first) % 2 ^ 32

-- How far a format brings the call: an error, the entry read, or an entry written and whether
-- it was free before.
pub data Linked : Type 0 where
  failed : Drive → Linked
  entry : ℕ → Drive → Linked
  stored : Bool → Drive → Linked

unfoldable pub entry_of_12 : ℕ → ℕ
entry_of_12 cluster =
    if leb 4088 cluster then long_last_cluster else (if cluster == 4087 then long_bad else cluster)

abbrev pub odd : ℕ → Bool
odd n = n % 2 == 1

-- The entry in the two bytes, and the two bytes with another entry.
unfoldable pub unpack : Bool → ℕ → ℕ
unpack is_odd word = if is_odd then word / 16 % 4096 else word % 4096

unfoldable pub pack : Bool → ℕ → ℕ → ℕ
pack is_odd word cluster2 =
    if is_odd then word % 16 + cluster2 % 4096 * 16 else word / 4096 * 4096 + cluster2 % 4096

unfoldable pub entry_12 : ℕ → ℕ → ℕ → ℕ → ℕ → ℕ → Drive → Linked
entry_12 cluster1 cluster2 n0 i0 n1 i1 s =
    let word = byte s n0 i0 + byte s n1 i1 * 2 ^ 8 in
    let cluster = unpack (odd cluster1) word in
    let packed = pack (odd cluster1) word cluster2 in
    if cluster2 % 2 ^ 16 == read_cluster
    then Linked.entry (entry_of_12 cluster) s
    else Linked.stored (cluster == free) (put_byte n1 i1 (packed / 2 ^ 8) (put_byte n0 i0 packed s))

-- The entry straddles two blocks.
unfoldable pub straddling_12 : ℕ → ℕ → ℕ → ℕ → ℕ → Option Drive → Drive → Linked
straddling_12 cluster1 cluster2 n i n1 none before = Linked.failed before
straddling_12 cluster1 cluster2 n i n1 (some s) before =
    entry_12 cluster1 cluster2 n i n1 0 (if cluster2 == read_cluster then s else mark_dirty n1 s)

unfoldable pub link_12 : ℕ → ℕ → ℕ → ℕ → Drive → Linked
link_12 cluster1 cluster2 n idx s =
    let i = idx / 2 in
    let n1 = (n + 1) % 2 ^ 16 in
    if leb ((s.dpb.secsize + 65535) % 2 ^ 16) i
    then straddling_12 cluster1 cluster2 n i n1 (get_fat_block n1 s) s
    else entry_12 cluster1 cluster2 n i n (i + 1) s

unfoldable pub entry_of_16 : ℕ → ℕ
entry_of_16 res =
    if leb 65528 res then long_last_cluster else (if res == 65527 then long_bad else res)

unfoldable pub link_16 : ℕ → ℕ → ℕ → Drive → Linked
link_16 cluster2 n idx s =
    let res = get_word s n (idx * 2) in
    if cluster2 % 2 ^ 16 == read_cluster
    then Linked.entry (entry_of_16 res) s
    else Linked.stored (res == free) (put_word n (idx * 2) (cluster2 % 2 ^ 16) s)

unfoldable pub entry_of_32 : ℕ → ℕ
entry_of_32 res = if ltb long_bad res then long_last_cluster else res

unfoldable pub link_32 : ℕ → ℕ → ℕ → Drive → Linked
link_32 cluster2 n idx s =
    let res = get_long s n (idx * 4) % 2 ^ 28 in
    if cluster2 == read_cluster
    then Linked.entry (entry_of_32 res) s
    else Linked.stored (res == free) (put_long n (idx * 4) (cluster2 % 2 ^ 28) s)

unfoldable pub finish : ℕ → ℕ → Linked → Option (ℕ × Drive)
finish cluster2 n (Linked.failed s) = some (1, s)
finish cluster2 n (Linked.entry v s) = some (v, s)
finish cluster2 n (Linked.stored wasfree s) = count_free cluster2 wasfree (mark_dirty n s)

unfoldable pub link_entry : ℕ → ℕ → ℕ → Drive → Linked
link_entry cluster1 cluster2 n s =
    let idx = entry_index s.dpb cluster1 in
    if is_fat12 s.dpb
    then link_12 cluster1 cluster2 n idx s
    else (if is_fat16 s.dpb
        then link_16 cluster2 n idx s
        else (if is_fat32 s.dpb then link_32 cluster2 n idx s else Linked.failed s))

unfoldable pub link_block : ℕ → ℕ → ℕ → Option Drive → Drive → Option (ℕ × Drive)
link_block cluster1 cluster2 n none before = some (1, before)
link_block cluster1 cluster2 n (some s) before =
    finish cluster2 n (link_entry cluster1 cluster2 n s)

unfoldable pub link_fat : ℕ → ℕ → Drive → Option (ℕ × Drive)
link_fat cluster1 cluster2 s =
    let n = entry_sector s.dpb cluster1 in
    if refused s.dpb cluster1 cluster2
    then some (1, s)
    else link_block cluster1 cluster2 n (get_fat_block n s) s

-- The entry that a chain continues with must itself be in use.
unfoldable pub follow : ℕ → Option (ℕ × Drive) → Option (ℕ × Drive)
follow candidate none = none
follow candidate (some (following, s)) =
    if ltb following 2 || (ltb following long_bad && ltb (max_cluster s.dpb) following)
    then some (1, s)
    else some (candidate, s)

unfoldable pub check_candidate : Option (ℕ × Drive) → Option (ℕ × Drive)
check_candidate none = none
check_candidate (some (candidate, s)) =
    if ltb candidate 2 || leb long_bad candidate
    then some (candidate, s)
    else follow candidate (link_fat candidate read_cluster s)

unfoldable pub next_cluster : ℕ → Drive → Option (ℕ × Drive)
next_cluster cluster_num s = check_candidate (link_fat cluster_num read_cluster s)

abbrev pub is_free : Option (ℕ × Drive) → Option (Bool × Drive)
is_free none = none
is_free (some (value, s)) = some (value == free, s)

unfoldable pub is_free_cluster : ℕ → Drive → Option (Bool × Drive)
is_free_cluster cluster_num s = is_free (link_fat cluster_num read_cluster s)
