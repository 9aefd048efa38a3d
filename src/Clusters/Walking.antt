-- ===== src/Clusters/Walking.antt =====
-- The walk of `map_cluster` of kernel/fatfs.c along the chain of a file.
use fdkernel.Common.{
  ℕ, zero, suc, ◌+◌, ◌%◌, ◌^◌, ◌≤◌, ◌<◌, ◌≡◌, ◌≢◌, ◌⊎◌, inl, inr, refl, true, false, Option, none,
  some, leb, ◌==◌, if◌then◌else◌, arith, Bool-cases, sym, ◌∙◌,
}
use fdkernel.Fat.State.{long_last_cluster, free}
use fdkernel.Clusters.Chain.{Fat, Volume, Fnode, Mapped, set_fat, extend, xfr_read}
use fdkernel.Clusters.Walk.{Done, walk, grown, move_to, first_cluster}
use fdkernel.Clusters.Laws.{InRange, IsTable, Same, HintOk}
use fdkernel.Clusters.Extend.{Extended, extend_lem}
use fdkernel.Clusters.Follow.{
  Follows, Keeps, Keeps-trans, Follows-Keeps, Damaged, stop-Damaged, Joined-Keeps,
}

module _ (F : Fat) (T : IsTable F) where
  open T use {content, next_keeps, next_reads}

  -- The node stands at a cluster of the chain that starts at `a`.
  abbrev pub IsAt : ℕ → Fnode → Volume F → Type 0
  IsAt a n v = Follows (content v.fat) a n.f_cluster_offset n.f_cluster

  -- What a result means for a file that starts at `a` and a search for cluster `target`.
  abbrev pub Means : ℕ → ℕ → ℕ → Mapped → Fnode → Volume F → Type 0
  Means a target mode Mapped.success n v =
      IsAt a n v × (n.f_cluster_offset ≡ target) × (first_cluster n ≡ a)
  Means a target mode Mapped.de_seek n v =
      IsAt a n v
      × (n.f_cluster_offset < target)
      × (first_cluster n ≡ a)
      × (((mode ≡ xfr_read) × (content v.fat n.f_cluster ≡ long_last_cluster))
          ⊎ Damaged F T v.fat n.f_cluster)
  Means a target mode Mapped.de_hndldskfull n v =
      (mode ≢ xfr_read) × ((c : ℕ) → InRange F c → content v.fat c ≢ free)

  abbrev pub Ends : ℕ → ℕ → ℕ → Volume F → Option (Done F) → Type 0
  Ends a target mode v none = ⊥
  Ends a target mode v (some (code, n', v')) =
      HintOk F T v'.hint × Keeps (content v.fat) (content v'.fat) × Means a target mode code n' v'

  pub Ends-later :
      (a target mode : ℕ) (v v' : Volume F) (o : Option (Done F))
      → Keeps (content v.fat) (content v'.fat)
      → Ends a target mode v' o
      → Ends a target mode v o
  Ends-later a target mode v v' none keeps no_result = no_result
  Ends-later a target mode v v' (some (code, n, u)) keeps (ok, kept, means) =
      (ok, Keeps-trans (content v.fat) (content v'.fat) (content u.fat) keeps kept, means)

  -- The rest of the way, from any node at its place.
  abbrev pub GoesOn : ℕ → ℕ → ℕ → ℕ → (Fnode → Volume F → Option (Done F)) → Type 0
  GoesOn a target mode from go =
      (n : Fnode) (v : Volume F)
      → IsAt a n v
      → (n.f_cluster_offset ≡ from) × (first_cluster n ≡ a)
      → HintOk F T v.hint
      → Ends a target mode v (go n v)

  pub Same-Keeps : (w w' : F.World) → Same F T w w' → Keeps (content w) (content w')
  Same-Keeps w w' same j two open_end = same j

  -- The chain ended at the cluster of the node and was extended there.
  grown-Ends :
      (a target mode : ℕ) (go : Fnode → Volume F → Option (Done F)) (n : Fnode) (v : Volume F)
      (t : ℕ × Fnode × Volume F)
      → GoesOn a target mode (n.f_cluster_offset + 1) go
      → mode ≢ xfr_read
      → n.f_cluster_offset + 1 ≤ target
      → target < 2 ^ 32
      → IsAt a n v
      → first_cluster n ≡ a
      → InRange F n.f_cluster
      → content v.fat n.f_cluster ≡ long_last_cluster
      → Extended F T n v t
      → Ends a target mode v (grown F go move_to (some t))
  grown-Ends a target mode go n v (k, n', v') goes write ahead small at first within last
        (ok, inr (is_n, full, same, all)) =
      let test : (k == long_last_cluster) ≡ true = ground (arith, full) in
      rw test
        (ok, Same-Keeps v.fat v'.fat same, (write, λ c inside is. all c inside (sym (same c) ∙ is)))
  grown-Ends a target mode go n v (k, n', v') goes write ahead small at first within last
        (ok, inl (is_n, joined)) =
      let ((two, below), is, entries) = joined in
      let short = T.short in
      let test : (k == long_last_cluster) ≡ false = ground arith in
      let chain : (n.f_cluster == free) ≡ false = ground (arith, within) in
      let other : (n.f_cluster == k) ≡ false = ground (arith, last, is) in
      let kept = Joined-Keeps F T n.f_cluster k v.fat v'.fat (inr (within, last)) joined in
      let same_n : n' ≡ n = is_n ∙ rw chain refl in
      let led : content v'.fat n.f_cluster ≡ k =
        ground (arith, entries n.f_cluster, other, chain) in
      let one_more : (n.f_cluster_offset + 1) % 2 ^ 32 ≡ n.f_cluster_offset + 1 = omega arith in
      rw test (
        Ends-later a target mode v v' (go (move_to k n') v') kept (
          rw same_n (
            goes (move_to k n) v'
              (Follows.next
                (Follows-Keeps (content v.fat) (content v'.fat) a n.f_cluster_offset n.f_cluster
                  kept at)
                (led, two, ground arith) one_more)
              (one_more, first) ok)))

  -- The table has been read at the cluster of the node, which names another one or ends the chain.
  abbrev Read : ℕ → Volume F → Volume F
  Read c v = set_fat F ((F.next_cluster c v.fat).1) v

  IsAt-Read : (a : ℕ) (n : Fnode) (v : Volume F) → IsAt a n v → IsAt a n (Read n.f_cluster v)
  IsAt-Read a n v at =
      Follows-Keeps (content v.fat) (content (Read n.f_cluster v).fat) a n.f_cluster_offset
        n.f_cluster (Same-Keeps v.fat (Read n.f_cluster v).fat (next_keeps n.f_cluster v.fat)) at

  last-Ends :
      (a target mode : ℕ) (go : Fnode → Volume F → Option (Done F)) (n : Fnode) (v : Volume F)
      → GoesOn a target mode (n.f_cluster_offset + 1) go
      → n.f_cluster_offset + 1 ≤ target
      → target < 2 ^ 32
      → 2 ≤ F.size
      → IsAt a n v
      → first_cluster n ≡ a
      → HintOk F T v.hint
      → InRange F n.f_cluster
      → content v.fat n.f_cluster ≡ long_last_cluster
      → Ends a target mode v (
          if mode == xfr_read
          then some (Mapped.de_seek, n, v)
          else grown F go move_to (extend F n v))
  last-Ends a target mode go n v goes ahead small some_clusters at first ok within last =
      elim (Bool-cases (mode == xfr_read)) [
        | inl read ↦
            rw read
              (ok, (λ j two open_end. refl), (at, omega arith, first, inl (ground arith, last)))
        | inr write ↦
            let (t, run, extended) = extend_lem F T n v some_clusters ok (inr (within, last)) in
            rw write (
              rw run (
                grown-Ends a target mode go n v t goes (ground arith) ahead small at first within
                  last extended))
      ]

  pub walk-Ends :
      (a target mode rounds from : ℕ)
      → from + rounds ≡ target
      → target < 2 ^ 32
      → 2 ≤ F.size
      → GoesOn a target mode from (walk F mode rounds)
  unfolding walk
  walk-Ends a target mode zero from sum small some_clusters n v at (place, first) ok =
      (ok, λ j two open_end. refl, (at, omega arith, first))
  walk-Ends a target mode (suc rounds) from sum small some_clusters n v at (place, first) ok =
      let c = n.f_cluster in
      let r : ℕ = (F.next_cluster c v.fat).0 in
      let v' : Volume F = Read c v in
      let kept = Same-Keeps v.fat v'.fat (next_keeps c v.fat) in
      let at' : IsAt a n v' = IsAt-Read a n v at in
      let goes =
        walk-Ends a target mode rounds (n.f_cluster_offset + 1) (omega arith) small some_clusters in
      elim (Bool-cases (leb r 1)) [
        | inl stop ↦
            rw stop
              (ok, kept, (at', omega arith, first, inr (stop-Damaged F T c v.fat (ground arith))))
        | inr further ↦ elim (next_reads c v.fat) [
          | inl one ↦ absurd (ground (arith, one, further))
          | inr (within, is) ↦ elim (Bool-cases (r == long_last_cluster)) [
            | inl last ↦
                let ended : content v'.fat c ≡ long_last_cluster =
                  ground (arith, next_keeps c v.fat c, is, last) in
                rw further (
                  rw last (
                    Ends-later a target mode v v'
                      (if mode == xfr_read
                        then some (Mapped.de_seek, n, v')
                        else grown F (walk F mode rounds) move_to (extend F n v'))
                      kept
                      (last-Ends a target mode (walk F mode rounds) n v' goes (omega arith) small
                        some_clusters at' first ok within ended)))
            | inr more ↦
                let one_more : (n.f_cluster_offset + 1) % 2 ^ 32 ≡ n.f_cluster_offset + 1 =
                  omega arith in
                rw further (
                  rw more (
                    Ends-later a target mode v v' (walk F mode rounds (move_to r n) v') kept (
                      goes (move_to r n) v'
                        (Follows.next at'
                          (next_keeps c v.fat c ∙ sym is, ground arith, ground arith) one_more)
                        (one_more, first) ok)))
          ]
        ]
      ]
