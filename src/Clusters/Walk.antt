-- ===== src/Clusters/Walk.antt =====
-- kernel/fatfs.c: `map_cluster`, which follows the chain of a file, and `wipe_out_clusters`,
-- which frees it.
use fdkernel.Common.{
  ℕ, zero, suc, ◌+◌, ◌-◌, ◌/◌, ◌%◌, ◌^◌, ◌||◌, Option, none, some, ltb, leb, ◌==◌, if◌then◌else◌,
}
use fdkernel.Fat.State.{long_last_cluster, free}
use fdkernel.Clusters.Chain.{Fat, Volume, Fnode, Mapped, xfr_read, unkncluster, set_fat, extend}

-- The end of a call: its result, the node of the file and the drive.
abbrev pub Done : Fat → Type 0
Done F = Mapped × Fnode × Volume F

abbrev pub move_to : ℕ → Fnode → Fnode
move_to cluster n = record n {
  f_cluster = cluster;
  f_cluster_offset = (n.f_cluster_offset + 1) % 2 ^ 32;
}

abbrev pub enter : ℕ → Fnode → Fnode
enter cluster n = record n { f_cluster = cluster }

-- What follows a call of `extend`, with the change of the node on success.
abbrev pub grown :
    (F : Fat)
    → (Fnode → Volume F → Option (Done F))
    → (ℕ → Fnode → Fnode)
    → Option (ℕ × Fnode × Volume F)
    → Option (Done F)
grown F go change none = none
grown F go change (some (cluster, n, v)) =
    if cluster == long_last_cluster
    then some (Mapped.de_hndldskfull, n, v)
    else go (change cluster n) v

-- The search for the cluster, so many clusters ahead.
unfoldable pub walk : (F : Fat) → ℕ → ℕ → Fnode → Volume F → Option (Done F)
walk F mode zero n v = some (Mapped.success, n, v)
walk F mode (suc rounds) n v =
    let go : Fnode → Volume F → Option (Done F) = walk F mode rounds in
    let (cluster, w) = F.next_cluster n.f_cluster v.fat in
    let v' = set_fat F w v in
    if leb cluster 1
    then some (Mapped.de_seek, n, v')
    else (if cluster == long_last_cluster
        then (if mode == xfr_read
            then some (Mapped.de_seek, n, v')
            else grown F go move_to (extend F n v'))
        else go (move_to cluster n) v')

abbrev pub first_cluster : Fnode → ℕ
first_cluster n = if n.f_sft_idx == 255 then n.dm_dircluster else n.dstart

abbrev pub relcluster : Fnode → ℕ
relcluster n = n.f_offset / n.dpb_secsize / 2 ^ n.dpb_shftcnt

-- A seek to an earlier cluster starts again at the first.
abbrev pub rewind : Fnode → Fnode
rewind n =
    if ltb (relcluster n) n.f_cluster_offset
    then record n { f_cluster = first_cluster n; f_cluster_offset = 0 }
    else n

unfoldable pub seek : (F : Fat) → ℕ → Fnode → Volume F → Option (Done F)
seek F mode n v = let n' = rewind n in walk F mode (relcluster n' - n'.f_cluster_offset) n' v

unfoldable pub map_cluster : (F : Fat) → ℕ → Fnode → Volume F → Option (Done F)
map_cluster F mode n v =
    if n.f_cluster == free
    then (if mode == xfr_read
        then some (Mapped.de_seek, n, v)
        else grown F (seek F mode) enter (extend F n v))
    else seek F mode n v

abbrev pub narrowed : Fat → ℕ → ℕ
narrowed F st = if F.wide then st else st % 2 ^ 16

abbrev pub lower_hint : (F : Fat) → ℕ → Volume F → Volume F
lower_hint F st v =
    if (v.hint == unkncluster) || ltb (narrowed F st) v.hint
    then record { hint = narrowed F st; fat = v.fat }
    else v

abbrev pub wipe_end : (F : Fat) → Volume F → Volume F
wipe_end F v = if F.wide then set_fat F (F.write_fsinfo v.hint v.fat) v else v

unfoldable pub wipe_out_clusters : (F : Fat) → ℕ → ℕ → Volume F → Option (Volume F)
wipe_out_clusters F zero st v = none
wipe_out_clusters F (suc fuel) st v =
    let go : ℕ → Volume F → Option (Volume F) = wipe_out_clusters F fuel in
    let (next, w) = F.next_cluster st v.fat in
    let (code, w') = F.link_fat st free w in
    if st == long_last_cluster
    then some (wipe_end F v)
    else (if leb next 1
        then some (set_fat F w v)
        else (if code == 0
            then go next (lower_hint F st (set_fat F w' v))
            else some (set_fat F w' v)))
