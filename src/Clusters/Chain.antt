-- ===== src/Clusters/Chain.antt =====
-- kernel/fatfs.c: `find_fat_free` and `extend`. The calls of kernel/fattab.c are an interface.
use fdkernel.Common.{
  ℕ, zero, suc, ◌+◌, ◌%◌, ◌^◌, Bool, Option, none, some, ltb, ◌==◌, if◌then◌else◌,
}
use fdkernel.Fat.State.{long_last_cluster, free}

-- `wide` is ISFAT32, `size` is `dpb_size` or `dpb_xsize`; `link_fat` returns 0 for success.
pub record Fat : Type 1 where
  pub World : Type 0
  pub wide : Bool
  pub size : ℕ
  pub next_cluster : ℕ → World → ℕ × World
  pub is_free_cluster : ℕ → World → Bool × World
  pub link_fat : ℕ → ℕ → World → ℕ × World
  pub write_fsinfo : ℕ → World → World

-- `hint` is `dpb_cluster`, or `dpb_xcluster` of a FAT32.
pub record Volume (F : Fat) : Type 0 where
  pub hint : ℕ
  pub fat : F.World

-- `dstart` is the start of the file in its directory entry; `secsize` and `shftcnt` are those of
-- the drive. A directory is read from `dm_dircluster`.
pub record Fnode : Type 0 where
  pub f_cluster : ℕ
  pub f_cluster_offset : ℕ
  pub f_offset : ℕ
  pub f_sft_idx : ℕ
  pub dm_dircluster : ℕ
  pub dstart : ℕ
  pub dpb_secsize : ℕ
  pub dpb_shftcnt : ℕ

abbrev pub unkncluster : ℕ
unkncluster = 0

abbrev pub xfr_read : ℕ
xfr_read = 1

-- Results of `map_cluster`.
pub data Mapped : Type 0 where
  success : Mapped
  de_seek : Mapped
  de_hndldskfull : Mapped

abbrev pub after : ℕ → ℕ → ℕ
after size idx = let next = (idx + 1) % 2 ^ 32 in if ltb size next then 2 else next

-- The loop of `find_fat_free`: the outer none is a search that is out of fuel, the inner one a
-- full disk.
unfoldable pub search : (F : Fat) → ℕ → ℕ → ℕ → F.World → Option (Option ℕ × F.World)
search F cluster idx zero w = none
search F cluster idx (suc fuel) w =
    let (found, w') = F.is_free_cluster idx w in
    let idx' = after F.size idx in
    let rest = search F cluster idx' fuel w' in
    if found then some (some idx, w') else (if idx' == cluster then some (none, w') else rest)

abbrev pub stored_hint : (F : Fat) → ℕ → F.World → Volume F
stored_hint F cluster w =
    if F.wide
    then record { hint = cluster; fat = F.write_fsinfo cluster w }
    else record { hint = cluster % 2 ^ 16; fat = w }

abbrev pub found_free : (F : Fat) → Option (Option ℕ × F.World) → Option (ℕ × Volume F)
found_free F none = none
found_free F (some (none, w)) = some (long_last_cluster, stored_hint F unkncluster w)
found_free F (some (some idx, w)) = some (idx, stored_hint F idx w)

abbrev pub first_place : ℕ → ℕ
first_place hint = if hint == unkncluster then 2 else hint

unfoldable pub find_fat_free : (F : Fat) → Volume F → Option (ℕ × Volume F)
find_fat_free F v = let idx = first_place v.hint in found_free F (search F idx idx F.size v.fat)

abbrev pub set_fat : (F : Fat) → F.World → Volume F → Volume F
set_fat F w v = record { hint = v.hint; fat = w }

abbrev pub setdstart : Fat → ℕ → Fnode → Fnode
setdstart F value n = record n { dstart = if F.wide then value % 2 ^ 32 else value % 2 ^ 16 }

-- What `extend` does once the new cluster is marked as the last one.
unfoldable pub append : (F : Fat) → ℕ → Fnode → Volume F → ℕ × Fnode × Volume F
append F free_fat n v =
    let (next, w) = F.next_cluster n.f_cluster v.fat in
    let (code, w') = F.link_fat n.f_cluster free_fat w in
    if n.f_cluster == free
    then (free_fat, setdstart F free_fat n, v)
    else (if next == long_last_cluster
        then (if code == 0 then free_fat else long_last_cluster, n, set_fat F w' v)
        else (long_last_cluster, n, set_fat F w v))

unfoldable pub take_free : (F : Fat) → Fnode → ℕ → Volume F → ℕ × Fnode × Volume F
take_free F n free_fat v =
    let (code, w) = F.link_fat free_fat long_last_cluster v.fat in
    let rest = append F free_fat n (set_fat F w v) in
    if free_fat == long_last_cluster
    then (free_fat, n, v)
    else (if code == 0 then rest else (long_last_cluster, n, set_fat F w v))

abbrev pub extend_with : (F : Fat) → Fnode → Option (ℕ × Volume F) → Option (ℕ × Fnode × Volume F)
extend_with F n none = none
extend_with F n (some (free_fat, v)) = some (take_free F n free_fat v)

unfoldable pub extend : (F : Fat) → Fnode → Volume F → Option (ℕ × Fnode × Volume F)
extend F n v = extend_with F n (find_fat_free F v)
