-- ===== src/Clusters/Wipe.antt =====
-- `wipe_out_clusters` of kernel/fatfs.c frees a chain.
use fdkernel.Common.{
  ℕ, zero, suc, ◌≤◌, ◌<◌, ◌≡◌, ◌⊎◌, inl, inr, refl, Bool, true, false, ◌||◌, Option, none, some,
  ltb, leb, ◌==◌, if◌then◌else◌, arith, Bool-cases, ap, ◌∙◌, List, [], ◌∷◌, length,
}
use fdkernel.Fat.State.{long_last_cluster, long_bad, free}
use fdkernel.Clusters.Chain.{Fat, Volume, set_fat, unkncluster}
use fdkernel.Clusters.Walk.{wipe_out_clusters, lower_hint, narrowed, wipe_end}
use fdkernel.Clusters.Laws.{InRange, IsTable, HintOk}

abbrev pub contains : List ℕ → ℕ → Bool
contains [] j = false
contains (c ∷ cs) j = (j == c) || contains cs j

module _ (F : Fat) (T : IsTable F) where
  open T use {content, next_keeps, next_works, link_works, fsinfo_keeps, short}

  -- The entry `st` starts the chain `cs`, which names no cluster twice.
  abbrev pub IsChain : F.World → ℕ → List ℕ → Type 0
  IsChain w st [] = st ≡ long_last_cluster
  IsChain w st (c ∷ cs) =
      (st ≡ c) × InRange F c × (contains cs c ≡ false) × IsChain w (content w c) cs

  -- The first value of a chain is its end, or a cluster whose entry is in use.
  IsChain-cases :
      (w : F.World) (st : ℕ) (cs : List ℕ)
      → IsChain w st cs
      → (st ≡ long_last_cluster)
        ⊎ (InRange F st
            × (2 ≤ content w st)
            × ((content w st ≤ F.size) ⊎ (long_bad ≤ content w st)))
  IsChain-cases w st [] last = inl last
  IsChain-cases w st (c ∷ []) (is, within, once, last) =
      let here : content w st ≡ long_last_cluster = ap (content w) is ∙ last in
      inr (ground (arith, is), ground (arith, here), inr (ground (arith, here)))
  IsChain-cases w st (c ∷ d ∷ cs) (is, within, once, (is', within', once', rest)) =
      let here : content w st ≡ d = ap (content w) is ∙ is' in
      inr (ground (arith, is), ground (arith, here), inl (ground (arith, here)))

  IsChain-away :
      (w w' : F.World) (c st : ℕ) (cs : List ℕ)
      → ((j : ℕ) → content w' j ≡ (if j == c then free else content w j))
      → contains cs c ≡ false
      → IsChain w st cs
      → IsChain w' st cs
  IsChain-away w w' c st [] entries away last = last
  IsChain-away w w' c st (d ∷ cs) entries away (is, within, once, rest) =
      let apart : ((d == c) ≡ false) × (contains cs c ≡ false) = ground (arith, away) in
      let kept : content w' d ≡ content w d = ground (arith, entries d, apart) in
      (is, within, once, rw kept (IsChain-away w w' c (content w d) cs entries apart.1 rest))

  -- The chain `cs` is free and nothing else has changed.
  abbrev pub Wiped : List ℕ → Volume F → Option (Volume F) → Type 0
  Wiped cs v none = ⊥
  Wiped cs v (some v') =
      ((j : ℕ) → content v'.fat j ≡ (if contains cs j then free else content v.fat j))
      × HintOk F T v'.hint

  lower_hint_lem :
      (st : ℕ) (v : Volume F)
      → InRange F st
      → HintOk F T v.hint
      → HintOk F T (lower_hint F st v).hint × ((lower_hint F st v).fat ≡ v.fat)
  lower_hint_lem st v within ok =
      let small : narrowed F st ≡ st = elim (Bool-cases F.wide) [
        | inl wide ↦ rw wide refl
        | inr narrow ↦ let limit = T.narrow narrow in rw narrow (ground arith)
      ] in
      elim (Bool-cases ((v.hint == unkncluster) || ltb (narrowed F st) v.hint)) [
        | inl lower ↦ rw (lower, lower_hint) (inr (rw small within), refl)
        | inr kept ↦ rw (kept, lower_hint) (ok, refl)
      ]

  Wiped-cons :
      (c : ℕ) (cs : List ℕ) (v u : Volume F) (o : Option (Volume F))
      → ((j : ℕ) → content u.fat j ≡ (if j == c then free else content v.fat j))
      → Wiped cs u o
      → Wiped (c ∷ cs) v o
  Wiped-cons c cs v u none entries no_fuel = no_fuel
  Wiped-cons c cs v u (some v') entries (all, ok) =
      (λ j. let e = all j in let e' = entries j in ground (arith, e, e'), ok)

  wipe_end_lem : (v : Volume F) → HintOk F T v.hint → Wiped [] v (some (wipe_end F v))
  wipe_end_lem v ok = elim (Bool-cases F.wide) [
    | inl wide ↦ rw (wide, wipe_end) (fsinfo_keeps v.hint v.fat, ok)
    | inr narrow ↦ rw (narrow, wipe_end) (λ j. refl, ok)
  ]

  -- `wipe_out_clusters` ends, after at most one round more than the chain has clusters; then
  -- every cluster of the chain is free, and no other entry has changed.
  pub wipe_out_clusters_lem :
      (fuel st : ℕ) (cs : List ℕ) (v : Volume F)
      → length cs < fuel
      → IsChain v.fat st cs
      → HintOk F T v.hint
      → Wiped cs v (wipe_out_clusters F fuel st v)
  unfolding wipe_out_clusters
  wipe_out_clusters_lem zero st cs v enough chain ok = absurd (omega arith)
  wipe_out_clusters_lem (suc fuel) st [] v enough last ok =
      let test : (st == long_last_cluster) ≡ true = ground (arith, last) in
      rw test (wipe_end_lem v ok)
  wipe_out_clusters_lem (suc fuel) st (c ∷ cs) v enough (is, within, once, rest) ok =
      let test : (c == long_last_cluster) ≡ false = ground (arith, within) in
      let next : ℕ = content v.fat c in
      let w : F.World = (F.next_cluster c v.fat).1 in
      let follows = IsChain-cases v.fat next cs rest in
      let read : (F.next_cluster c v.fat).0 ≡ next = next_works c v.fat within (elim follows [
        | inl last ↦ inl last
        | inr (inside, two, used) ↦ inr (inside, (two, used))
      ]) in
      let further : leb (F.next_cluster c v.fat).0 1 ≡ false = ground (arith, follows, read) in
      let (good, wrote) = link_works c free w within (inl refl) in
      let u : F.World = (F.link_fat c free w).1 in
      let done : ((F.link_fat c free w).0 == 0) ≡ true = ground (arith, good) in
      let entries : (j : ℕ) → content u j ≡ (if j == c then free else content v.fat j) =
        λ j. wrote j ∙ ap (λ x. if j == c then free else x) (next_keeps c v.fat j) in
      let v' : Volume F = lower_hint F c (set_fat F u v) in
      let (ok', same) = lower_hint_lem c (set_fat F u v) within ok in
      let entries' : (j : ℕ) → content v'.fat j ≡ (if j == c then free else content v.fat j) =
        λ j. ap (λ t. content t j) same ∙ entries j in
      rw is (
        rw test (
          rw further (
            rw done (
              rw read (
                Wiped-cons c cs v v' (wipe_out_clusters F fuel next v') entries' (
                  wipe_out_clusters_lem fuel next cs v' (omega arith)
                    (IsChain-away v.fat v'.fat c next cs entries' once rest) ok'))))))
