-- ===== src/Fat/FreeCount.antt =====
-- kernel/fattab.c: `read_fsinfo`, `write_fsinfo` and the count of free clusters that `link_fat`
-- keeps. A result `none` is the access through NULL that the two fsinfo routines make when their
-- block cannot be read.
use fdkernel.Common.{
  ℕ, ◌+◌, ◌-◌, ◌*◌, ◌/◌, ◌%◌, ◌^◌, Bool, true, false, not, ◌&&◌, ◌||◌, Option, none, some, ltb, leb,
  ◌==◌, if◌then◌else◌,
}
use fdkernel.Fat.State.{Drive, is_fat32, free, put_buffer, get_long, put_long}

-- `fi_nfreeclst` and `fi_cluster` of the fsinfo structure at 0x1e4 of its sector.
abbrev pub fi_nfreeclst : ℕ
fi_nfreeclst = 488

abbrev pub fi_cluster : ℕ
fi_cluster = 492

abbrev pub as_fsinfo_block : ℕ → Drive → Drive
as_fsinfo_block n s =
    let b = s.block n in
    put_buffer n
      (record b {
        b_flag = record (b.b_flag) {
          data_area = false;
          dir_area = false;
          fat_area = false;
          valid = true;
        };
      })
      s

abbrev pub clean : ℕ → Drive → Drive
clean n s =
    let b = s.block n in put_buffer n (record b { b_flag = record (b.b_flag) { dirty = false } }) s

abbrev pub dirty_if : Bool → ℕ → Drive → Drive
dirty_if news n s =
    let b = s.block n in
    if news then put_buffer n (record b { b_flag = record (b.b_flag) { dirty = true } }) s else s

unfoldable pub read_fsinfo : Drive → Option Drive
read_fsinfo s =
    let n = s.dpb.xfsinfosec in
    let count = get_long s n fi_nfreeclst in
    let next = get_long s n fi_cluster in
    if n == 65535
    then some s
    else (if s.readable n
        then some (record (clean n (as_fsinfo_block n s)) {
          dpb = record (s.dpb) {
            xnfreeclst = if leb s.dpb.xsize count then 2 ^ 32 - 1 else count;
            xcluster = if ltb next 2 || ltb s.dpb.xsize next then 0 else next;
          };
        })
        else none)

unfoldable pub write_fsinfo : Drive → Option Drive
write_fsinfo s =
    let n = s.dpb.xfsinfosec in
    let news =
      not (get_long s n fi_nfreeclst == s.dpb.xnfreeclst)
      || not (get_long s n fi_cluster == s.dpb.xcluster) in
    if n == 65535
    then some s
    else (if s.readable n
        then some (
            put_long n fi_cluster s.dpb.xcluster
              (put_long n fi_nfreeclst s.dpb.xnfreeclst (dirty_if news n (as_fsinfo_block n s))))
        else none)

-- What is added to the count of free clusters; -1 is the last value of the word.
abbrev pub plus_adjust : ℕ → ℕ → Bool → ℕ → ℕ
plus_adjust bits cluster2 wasfree count =
    if not wasfree
    then (count + 1) % 2 ^ bits
    else (if cluster2 == free then count else (count + 2 ^ bits - 1) % 2 ^ bits)

abbrev pub success : Option Drive → Option (ℕ × Drive)
success none = none
success (some s) = some (0, s)

unfoldable pub count_free : ℕ → Bool → Drive → Option (ℕ × Drive)
count_free cluster2 wasfree s =
    let d = s.dpb in
    let low = d.xnfreeclst % 2 ^ 16 in
    if not (cluster2 == free || wasfree)
    then some (0, s)
    else (if is_fat32 d && not (d.xnfreeclst == 2 ^ 32 - 1)
        then success (
            write_fsinfo (record s {
              dpb = record d { xnfreeclst = plus_adjust 32 cluster2 wasfree d.xnfreeclst };
            }))
        else (if low == 65535
            then some (0, s)
            else some (
              0,
              record s {
                dpb = record d {
                  xnfreeclst = d.xnfreeclst / 2 ^ 16 * 2 ^ 16 + plus_adjust 16 cluster2 wasfree low;
                };
              },
            )))
