-- ===== src/Clusters/Laws.antt =====
-- What kernel/fattab.c promises to kernel/fatfs.c, and the search for a free cluster.
use fdkernel.Common.{
  ℕ, zero, suc, ◌+◌, ◌-◌, ◌^◌, ◌≤◌, ◌<◌, ◌≡◌, ◌≢◌, ◌⊎◌, inl, inr, refl, false, Option, none, some,
  ltb, ◌==◌, if◌then◌else◌, arith, Bool-cases, ap, sym, ◌∙◌, ℕ_discrete,
}
use fdkernel.Fat.State.{long_last_cluster, long_bad, free}
use fdkernel.Clusters.Chain.{
  Fat, Volume, search, find_fat_free, first_place, found_free, stored_hint, after, unkncluster,
}

abbrev pub InRange : Fat → ℕ → Type 0
InRange F c = (2 ≤ c) × (c ≤ F.size)

-- A value that a chain may continue with.
abbrev pub IsValue : Fat → ℕ → Type 0
IsValue F x = (2 ≤ x) × ((x ≤ F.size) ⊎ (long_bad ≤ x))

-- A table that can be read and written: `content` is the value of each entry. A number that the
-- table names is only returned if its own entry is in use.
pub record IsTable (F : Fat) : Type 1 where
  pub content : F.World → ℕ → ℕ
  pub short : F.size < long_bad
  pub narrow : F.wide ≡ false → F.size < 2 ^ 16
  pub next_keeps : (c : ℕ) (w : F.World) (j : ℕ) → content ((F.next_cluster c w).1) j ≡ content w j
  pub next_reads :
      (c : ℕ) (w : F.World)
      → ((F.next_cluster c w).0 ≡ 1) ⊎ (InRange F c × ((F.next_cluster c w).0 ≡ content w c))
  pub next_works :
      (c : ℕ) (w : F.World)
      → InRange F c
      → (content w c ≡ long_last_cluster)
        ⊎ (InRange F (content w c) × IsValue F (content w (content w c)))
      → (F.next_cluster c w).0 ≡ content w c
  pub free_keeps :
      (c : ℕ) (w : F.World) (j : ℕ) → content ((F.is_free_cluster c w).1) j ≡ content w j
  pub free_reads :
      (c : ℕ) (w : F.World) → InRange F c → (F.is_free_cluster c w).0 ≡ (content w c == free)
  pub link_works :
      (c x : ℕ) (w : F.World)
      → InRange F c
      → (x ≡ free) ⊎ (InRange F x ⊎ (x ≡ long_last_cluster))
      → ((F.link_fat c x w).0 ≡ 0)
        × ((j : ℕ) → content ((F.link_fat c x w).1) j ≡ (if j == c then x else content w j))
  pub fsinfo_keeps : (h : ℕ) (w : F.World) (j : ℕ) → content (F.write_fsinfo h w) j ≡ content w j

-- The clusters from `idx` on, up to the one before `start`, around the end of the table.
abbrev Ahead : ℕ → ℕ → ℕ → Type 0
Ahead start idx c =
    ((idx < start) × (idx ≤ c) × (c < start)) ⊎ ((start ≤ idx) × ((idx ≤ c) ⊎ (c < start)))

abbrev left : ℕ → ℕ → ℕ → ℕ
left size start idx = if ltb idx start then start - idx else size + 1 - idx + (start - 2)

step_covers :
    (size start idx c : ℕ)
    → size < long_bad
    → start ≤ size
    → 2 ≤ start
    → idx ≤ size
    → c ≤ size
    → 2 ≤ c
    → Ahead start idx c
    → c ≢ idx
    → ((after size idx == start) ≡ false) × Ahead start (after size idx) c
step_covers size start idx c short below two inside c_below c_two ahead other = ground arith

step_shortens :
    (size start idx fuel : ℕ)
    → size < long_bad
    → start ≤ size
    → 2 ≤ start
    → idx ≤ size
    → 2 ≤ idx
    → left size start idx ≤ suc fuel
    → (after size idx == start) ≡ false
    → (left size start (after size idx) ≤ fuel) × (2 ≤ after size idx) × (after size idx ≤ size)
step_shortens size start idx fuel short below two inside idx_two enough e = ground arith

module _ (F : Fat) (T : IsTable F) where
  open T use {content, free_keeps, free_reads, fsinfo_keeps, short}

  abbrev pub Same : F.World → F.World → Type 0
  Same w w' = (j : ℕ) → content w' j ≡ content w j

  abbrev Searched : (ℕ → Type 0) → F.World → Option (Option ℕ × F.World) → Type 0
  Searched P w none = ⊥
  Searched P w (some (none, w')) = Same w w' × ((c : ℕ) → InRange F c → P c → content w c ≢ free)
  Searched P w (some (some k, w')) = Same w w' × InRange F k × (content w k ≡ free)

  not_found :
      (P : ℕ → Type 0) (w w' : F.World) (r : Option (Option ℕ × F.World))
      → Same w w'
      → Searched P w' r
      → (Q : ℕ → Type 0) → ((c : ℕ) → InRange F c → Q c → (content w c ≢ free) ⊎ P c)
      → Searched Q w r
  not_found P w w' none same no_fuel Q split = elim no_fuel [ ]
  not_found P w w' (some (none, u)) same (same', all) Q split = (
    λ j. same' j ∙ same j,
    λ c within q. elim (split c within q) [
      | inl used ↦ used
      | inr p ↦ λ is. all c within p (same c ∙ is)
    ],
  )
  not_found P w w' (some (some k, u)) same (same', within, is) Q split =
      (λ j. same' j ∙ same j, within, sym (same k) ∙ is)

  used_here :
      (w : F.World) (idx : ℕ)
      → InRange F idx
      → (F.is_free_cluster idx w).0 ≡ false
      → content w idx ≢ free
  used_here w idx within e is = let test = free_reads idx w within in ground (arith, test, is, e)

  search_lem :
      (start idx fuel : ℕ) (w : F.World)
      → InRange F start
      → InRange F idx
      → left F.size start idx ≤ fuel
      → Searched (Ahead start idx) w (search F start idx fuel w)
  unfolding search
  search_lem start idx zero w (two, below) (idx_two, inside) enough = absurd (ground arith)
  search_lem start idx (suc fuel) w (two, below) (idx_two, inside) enough =
      elim (Bool-cases ((F.is_free_cluster idx w).0)) [
        | inl yes_free ↦
            let is : content w idx ≡ free = ground (arith, free_reads idx w (idx_two, inside)) in
            rw yes_free (free_keeps idx w, (idx_two, inside), is)
        | inr used ↦
            let here = used_here w idx (idx_two, inside) used in
            let split : (c : ℕ)
                → InRange F c
                → Ahead start idx c
                → (content w c ≢ free)
                  ⊎ (((after F.size idx == start) ≡ false) × Ahead start (after F.size idx) c) =
              λ c within ahead. elim (ℕ_discrete c idx) [
                | yes same ↦ inl (λ is. here (ap (content w) (sym same) ∙ is))
                | no other ↦ inr (
                    step_covers F.size start idx c short below two inside within.1 within.0 ahead
                      other)
              ] in
            rw used (elim (Bool-cases (after F.size idx == start)) [
              | inl full ↦ rw full (
                free_keeps idx w,
                λ c within ahead. elim (split c within ahead) [
                  | inl nonzero ↦ nonzero
                  | inr (again, _) ↦ absurd (ground (arith, again, full))
                ],
              )
              | inr more ↦ rw more (
                  let (fewer, after_two, after_in) =
                    step_shortens F.size start idx fuel short below two inside idx_two enough
                      more in
                  let w' : F.World = (F.is_free_cluster idx w).1 in
                  not_found (Ahead start (after F.size idx)) w w'
                    (search F start (after F.size idx) fuel w') (free_keeps idx w)
                    (search_lem start (after F.size idx) fuel w' (two, below) (after_two, after_in)
                      fewer)
                    (Ahead start idx)
                    (λ c within ahead. elim (split c within ahead) [
                      | inl nonzero ↦ inl nonzero
                      | inr (_, p) ↦ inr p
                    ]))
            ])
      ]

  -- `dpb_cluster` is unknown or a cluster of the drive, which `read_fsinfo` and the call that sets the
  -- counts see to.
  abbrev pub HintOk : ℕ → Type 0
  HintOk h = (h ≡ unkncluster) ⊎ InRange F h

  -- The free cluster that is found, or a full disk.
  abbrev pub Found : F.World → ℕ → Type 0
  Found w k =
      (InRange F k × (content w k ≡ free))
      ⊎ ((k ≡ long_last_cluster) × ((c : ℕ) → InRange F c → content w c ≢ free))

  stored_hint_lem :
      (h : ℕ) (w : F.World)
      → HintOk h
      → Same w (stored_hint F h w).fat × HintOk (stored_hint F h w).hint
  stored_hint_lem h w ok = elim (Bool-cases F.wide) [
    | inl wide ↦ rw (wide, stored_hint) (fsinfo_keeps h w, ok)
    | inr narrow ↦ let small = T.narrow narrow in rw (narrow, stored_hint) (λ j. refl, ground arith)
  ]

  abbrev FoundIn : Volume F → Option (ℕ × Volume F) → Type 0
  FoundIn v t =
      (k : ℕ) × (v' : Volume F) × (t ≡ some (k, v'))
      × Same v.fat v'.fat
      × HintOk v'.hint
      × Found v.fat k

  found_free_lem :
      (start : ℕ) (v : Volume F) (r : Option (Option ℕ × F.World))
      → Searched (Ahead start start) v.fat r
      → FoundIn v (found_free F r)
  found_free_lem start v none no_fuel = elim no_fuel [ ]
  found_free_lem start v (some (none, w)) (same, all) =
      let (same', ok) = stored_hint_lem unkncluster w (inl refl) in
      (
        long_last_cluster,
        stored_hint F unkncluster w,
        refl,
        (λ j. same' j ∙ same j),
        ok,
        inr (refl, λ c within. all c within (ground arith)),
      )
  found_free_lem start v (some (some k, w)) (same, within, is) =
      let (same', ok) = stored_hint_lem k w (inr within) in
      (k, stored_hint F k w, refl, (λ j. same' j ∙ same j), ok, inl (within, is))

  -- `find_fat_free`, started at a place that is unknown or on the drive, ends and has gone around the
  -- table at most once: it returns a cluster that is free, or the mark of a full disk if no cluster
  -- is free. It changes no entry, and the place that the next search starts at is unknown or on the
  -- drive again. The table is one that can be read.
  pub find_fat_free_lem :
      (v : Volume F)
      → 2 ≤ F.size
      → HintOk v.hint
      → (k : ℕ) × (v' : Volume F) × (find_fat_free F v ≡ some (k, v'))
        × Same v.fat v'.fat
        × HintOk v'.hint
        × Found v.fat k
  unfolding find_fat_free
  find_fat_free_lem v some_clusters ok =
      let start : ℕ = first_place v.hint in
      let within : InRange F start = ground arith in
      found_free_lem start v (search F start start F.size v.fat)
        (search_lem start start F.size v.fat within within (ground arith))
