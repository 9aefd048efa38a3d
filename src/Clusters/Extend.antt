-- ===== src/Clusters/Extend.antt =====
-- What `extend` of kernel/fatfs.c does to the table.
use fdkernel.Common.{
  ℕ, ◌≤◌, ◌≡◌, ◌≢◌, ◌⊎◌, inl, inr, refl, true, false, not, ◌&&◌, some, ◌==◌, if◌then◌else◌, arith,
  Bool-cases, ap, ◌∙◌,
}
use fdkernel.Fat.State.{long_last_cluster, free}
use fdkernel.Clusters.Chain.{
  Fat, Volume, Fnode, set_fat, setdstart, append, take_free, extend, extend_with,
}
use fdkernel.Clusters.Laws.{InRange, IsTable, Same, HintOk, Found, find_fat_free_lem}

swap_writes :
    (j c k x y z : ℕ)
    → (c == k) ≡ false
    → z ≡ (if j == c then k else y)
    → y ≡ (if j == k then long_last_cluster else x)
    → z ≡ (if j == k then long_last_cluster else (if j == c then k else x))
swap_writes j c k x y z apart e e' = ground arith

module _ (F : Fat) (T : IsTable F) where
  open T use {content, link_works, next_keeps, next_reads, next_works, short}

  -- The cluster `k` was free and is the last one of a chain now, which `from` leads to if there
  -- was a chain before.
  abbrev pub Joined : ℕ → ℕ → F.World → F.World → Type 0
  Joined from k w w' =
      InRange F k
      × (content w k ≡ free)
      × ((j : ℕ)
          → content w' j ≡ (
              if j == k
              then long_last_cluster
              else (if not (from == free) && (j == from) then k else content w j)))

  abbrev pub with_start : ℕ → Fnode → Fnode
  with_start k n = if n.f_cluster == free then setdstart F k n else n

  -- The place where a chain is extended: nowhere, or its last cluster.
  abbrev pub IsEnd : ℕ → F.World → Type 0
  IsEnd c w = (c ≡ free) ⊎ (InRange F c × (content w c ≡ long_last_cluster))

  append-Joined :
      (k : ℕ) (n : Fnode) (w : F.World) (v : Volume F)
      → InRange F k
      → content w k ≡ free
      → ((j : ℕ) → content v.fat j ≡ (if j == k then long_last_cluster else content w j))
      → IsEnd n.f_cluster w
      → (w' : F.World) × (append F k n v ≡ (k, with_start k n, set_fat F w' v))
        × Joined n.f_cluster k w w'
  unfolding append
  append-Joined k n w v within is linked ended = elim (Bool-cases (n.f_cluster == free)) [
    | inl empty ↦ (v.fat, rw empty refl, (within, is, λ j. rw empty (linked j)))
    | inr chain ↦ elim ended [
      | inl nothing ↦ absurd (ground (arith, chain, nothing))
      | inr (inside, last) ↦
          let other : (n.f_cluster == k) ≡ false = ground (arith, last, is) in
          let still : content v.fat n.f_cluster ≡ long_last_cluster =
            linked n.f_cluster ∙ rw other last in
          let u : F.World = (F.next_cluster n.f_cluster v.fat).1 in
          let read = next_works n.f_cluster v.fat inside (inl still) in
          let test : ((F.next_cluster n.f_cluster v.fat).0 == long_last_cluster) ≡ true =
            ground (arith, read, still) in
          let (good, wrote) = link_works n.f_cluster k u inside (inr (inl within)) in
          let ok : ((F.link_fat n.f_cluster k u).0 == 0) ≡ true = ground (arith, good) in
          (
            (F.link_fat n.f_cluster k u).1,
            rw chain (rw test (rw ok refl)),
            (
              within,
              is,
              λ j. rw chain (
                  swap_writes j n.f_cluster k (content w j) (content u j)
                    (content ((F.link_fat n.f_cluster k u).1) j) other (wrote j)
                    (next_keeps n.f_cluster v.fat j ∙ linked j)),
            ),
          )
    ]
  ]

  -- The three results of `extend`: the cluster that joins the chain, or the mark of a full disk.
  abbrev pub Extended : Fnode → Volume F → ℕ × Fnode × Volume F → Type 0
  Extended n v (k, n', v') =
      HintOk F T v'.hint
      × (((n' ≡ with_start k n) × Joined n.f_cluster k v.fat v'.fat)
          ⊎ ((n' ≡ n)
              × (k ≡ long_last_cluster)
              × Same F T v.fat v'.fat
              × ((c : ℕ) → InRange F c → content v.fat c ≢ free)))

  take_free-Extended :
      (n : Fnode) (k : ℕ) (v v' : Volume F)
      → Same F T v.fat v'.fat
      → HintOk F T v'.hint
      → Found F T v.fat k
      → IsEnd n.f_cluster v.fat
      → Extended n v (take_free F n k v')
  unfolding take_free
  take_free-Extended n k v v' same ok (inr (full, all)) ended =
      let test : (k == long_last_cluster) ≡ true = ground (arith, full) in
      rw test (ok, inr (refl, full, same, all))
  take_free-Extended n k v v' same ok (inl (within, is)) ended =
      let test : (k == long_last_cluster) ≡ false = ground arith in
      let (good, wrote) = link_works k long_last_cluster v'.fat within (inr (inr refl)) in
      let linked : (F.link_fat k long_last_cluster v'.fat).0 == 0 ≡ true = ground (arith, good) in
      let u : F.World = (F.link_fat k long_last_cluster v'.fat).1 in
      let entries : (j : ℕ)
          → content u j ≡ (if j == k then long_last_cluster else content v.fat j) =
        λ j. wrote j ∙ ap (λ x. if j == k then long_last_cluster else x) (same j) in
      let (w, run, joined) = append-Joined k n v.fat (set_fat F u v') within is entries ended in
      rw test (rw linked (rw run (ok, inl (refl, joined))))

  -- `extend` always returns: the first free cluster joins the end of the chain, and no entry
  -- changes but this one and the end of the chain; or no cluster is free, and no entry changes.
  pub extend_lem :
      (n : Fnode) (v : Volume F)
      → 2 ≤ F.size
      → HintOk F T v.hint
      → IsEnd n.f_cluster v.fat
      → (t : ℕ × Fnode × Volume F) × (extend F n v ≡ some t) × Extended n v t
  unfolding extend
  extend_lem n v some_clusters ok ended =
      let (k, v', run, same, ok', found) = find_fat_free_lem F T v some_clusters ok in
      (
        take_free F n k v',
        ap (extend_with F n) run,
        take_free-Extended n k v v' same ok' found ended,
      )
