-- ===== src/Clusters/Examples.antt =====
-- A small table in memory, and runs of kernel/fatfs.c on it.
use fdkernel.Common.{
  ℕ, ◌≡◌, ◌⊎◌, inl, inr, refl, Bool, true, false, ◌&&◌, ◌||◌, Option, none, some, leb, ◌==◌,
  if◌then◌else◌, arith, Bool-cases, List, [], ◌∷◌,
}
use fdkernel.Fat.State.{long_last_cluster, long_bad, free}
use fdkernel.Clusters.Chain.{Fat, Volume, Fnode, find_fat_free, search, extend, take_free, append}
use fdkernel.Clusters.Walk.{Done, map_cluster, seek, walk, wipe_out_clusters}
use fdkernel.Clusters.Laws.{InRange, IsTable, IsValue, Same, HintOk, Found, find_fat_free_lem}
use fdkernel.Clusters.Follow.{Follows}
use fdkernel.Clusters.Walking.{Ends}
use fdkernel.Clusters.Mapping.{map_cluster_lem}
use fdkernel.Clusters.Twelve.{Implements, twelve-Implements}
use fdkernel.Clusters.Wipe.{Wiped, wipe_out_clusters_lem}

abbrev in_range : ℕ → Bool
in_range c = leb 2 c && leb c 9

abbrev is_value : ℕ → Bool
is_value x = leb 2 x && (leb x 9 || leb long_bad x)

abbrev sound : (ℕ → ℕ) → ℕ → Bool
sound w c = in_range c && ((w c == long_last_cluster) || (in_range (w c) && is_value (w (w c))))

abbrev memory : Fat
memory = record {
  World = ℕ → ℕ;
  wide = false;
  size = 9;
  next_cluster = λ c w. (if sound w c then w c else 1, w);
  is_free_cluster = λ c w. (w c == free, w);
  link_fat = λ c x w. (0, λ j. if j == c then x else w j);
  write_fsinfo = λ h w. w;
}

next_reads_lem :
    (c : ℕ) (w : ℕ → ℕ)
    → ((if sound w c then w c else 1) ≡ 1)
      ⊎ (InRange memory c × ((if sound w c then w c else 1) ≡ w c))
next_reads_lem c w = elim (Bool-cases (sound w c)) [
  | inl good ↦ rw good (inr (ground (arith, good), refl))
  | inr bad ↦ rw bad (inl refl)
]

next_works_lem :
    (c : ℕ) (w : ℕ → ℕ)
    → InRange memory c
    → (w c ≡ long_last_cluster) ⊎ (InRange memory (w c) × IsValue memory (w (w c)))
    → (if sound w c then w c else 1) ≡ w c
next_works_lem c w within good = let test : sound w c ≡ true = ground arith in rw test refl

abbrev memory-IsTable : IsTable memory
memory-IsTable = record {
  content = λ w. w;
  short = omega arith;
  narrow = λ e. omega arith;
  next_keeps = λ c w j. refl;
  next_reads = next_reads_lem;
  next_works = next_works_lem;
  free_keeps = λ c w j. refl;
  free_reads = λ c w within. refl;
  link_works = λ c x w within value. (refl, λ j. refl);
  fsinfo_keeps = λ h w j. refl;
}

-- One chain, 3, 4, 7, and another one, 2.
abbrev table : ℕ → ℕ
table c =
    if c == 3
    then 4
    else (if c == 4 then 7 else (if (c == 7) || (c == 2) then long_last_cluster else 0))

abbrev drive : Volume memory
drive = record { hint = 8; fat = table }

-- At the second cluster of the chain, with an offset in the fifth.
abbrev node : Fnode
node = record {
  f_cluster = 4;
  f_cluster_offset = 1;
  f_offset = 2100;
  f_sft_idx = 5;
  dm_dircluster = 0;
  dstart = 3;
  dpb_secsize = 512;
  dpb_shftcnt = 0;
}

abbrev new_file : Fnode
new_file = record node { f_cluster = 0; f_cluster_offset = 0; dstart = 0 }

find_fat_free_lem_example :
    (k : ℕ) × (v' : Volume memory) × (find_fat_free memory drive ≡ some (k, v'))
    × Same memory memory-IsTable drive.fat v'.fat
    × HintOk memory memory-IsTable v'.hint
    × Found memory memory-IsTable drive.fat k
find_fat_free_lem_example =
    find_fat_free_lem memory memory-IsTable drive (omega arith) (inr (omega arith, omega arith))

map_cluster_lem_example : Ends memory memory-IsTable 3 4 2 drive (map_cluster memory 2 node drive)
map_cluster_lem_example =
    map_cluster_lem memory memory-IsTable 2 node drive (omega arith) (omega arith)
      (Follows.next (Follows.start (omega arith)) (refl, omega arith, omega arith) refl)
      (inr (omega arith, omega arith))

wipe_out_clusters_lem_example :
    Wiped memory memory-IsTable (3 ∷ 4 ∷ 7 ∷ []) drive (wipe_out_clusters memory 4 3 drive)
wipe_out_clusters_lem_example =
    wipe_out_clusters_lem memory memory-IsTable 4 3 (3 ∷ 4 ∷ 7 ∷ []) drive (omega arith)
      (
        refl,
        (omega arith, omega arith),
        refl,
        (refl, (omega arith, omega arith), refl, (refl, (omega arith, omega arith), refl, refl)),
      )
      (inr (omega arith, omega arith))

abbrev seen : Option (Done memory) → List ℕ
seen none = []
seen (some (code, n, v)) = n.f_cluster ∷ v.hint ∷ v.fat 7 ∷ v.fat 8 ∷ v.fat 9 ∷ []

-- The chain grows by 8 and 9.
map_result : seen (map_cluster memory 2 node drive) ≡ 9 ∷ 9 ∷ 8 ∷ 9 ∷ long_last_cluster ∷ []
unfolding map_cluster seek walk extend find_fat_free search take_free append
map_result = refl

abbrev wiped : Option (Volume memory) → List ℕ
wiped none = []
wiped (some v) = v.hint ∷ v.fat 2 ∷ v.fat 3 ∷ v.fat 4 ∷ v.fat 7 ∷ []

wipe_result : wiped (wipe_out_clusters memory 4 3 drive) ≡ 3 ∷ long_last_cluster ∷ 0 ∷ 0 ∷ 0 ∷ []
unfolding wipe_out_clusters
wipe_result = refl

twelve-Implements_example : Implements 400
twelve-Implements_example = twelve-Implements 400 (omega arith)
