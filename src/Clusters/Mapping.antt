-- ===== src/Clusters/Mapping.antt =====
-- `map_cluster` of kernel/fatfs.c finds the cluster of an offset in the chain of a file.
use fdkernel.Common.{
  ℕ, ◌-◌, ◌^◌, ◌≤◌, ◌<◌, ◌≡◌, ◌≢◌, inl, inr, refl, true, false, some, ltb, ◌==◌, arith, Bool-cases,
  sym, ◌∙◌,
}
use fdkernel.Fat.State.{long_last_cluster, free}
use fdkernel.Clusters.Chain.{Fat, Volume, Fnode, xfr_read, setdstart}
use fdkernel.Clusters.Walk.{grown, enter, seek, map_cluster, relcluster, first_cluster}
use fdkernel.Clusters.Laws.{IsTable, HintOk}
use fdkernel.Clusters.Extend.{Extended, extend_lem}
use fdkernel.Clusters.Follow.{Follows, Follows-two, Joined-Keeps}
use fdkernel.Clusters.Walking.{IsAt, Ends, Ends-later, Same-Keeps, walk-Ends}

module _ (F : Fat) (T : IsTable F) where
  open T use {content}

  start_two : (c : ℕ → ℕ) (a k b : ℕ) → Follows c a k b → 2 ≤ a
  start_two c a k b (Follows.start two) = two
  start_two c a k b (Follows.next {k = k'} {b = b'} path leads m) = start_two c a k' b' path

  seek-Ends :
      (a mode : ℕ) (n : Fnode) (v : Volume F)
      → relcluster n < 2 ^ 32
      → 2 ≤ F.size
      → IsAt F T a n v
      → first_cluster n ≡ a
      → HintOk F T v.hint
      → Ends F T a (relcluster n) mode v (seek F mode n v)
  unfolding seek
  seek-Ends a mode n v small some_clusters at first ok =
      elim (Bool-cases (ltb (relcluster n) n.f_cluster_offset)) [
        | inl back ↦
            let n' : Fnode = record n { f_cluster = first_cluster n; f_cluster_offset = 0 } in
            let two = start_two (content v.fat) a n.f_cluster_offset n.f_cluster at in
            let at' : IsAt F T a n' v = rw first (Follows.start two) in
            rw back (
              walk-Ends F T a (relcluster n) mode (relcluster n - 0) 0 (omega arith) small
                some_clusters n' v at' (refl, first) ok)
        | inr ahead ↦ rw ahead (
            walk-Ends F T a (relcluster n) mode (relcluster n - n.f_cluster_offset)
              n.f_cluster_offset (ground arith) small some_clusters n v at (refl, first) ok)
      ]

  -- `map_cluster` on a file that has clusters always returns, and no entry that names a further
  -- cluster changes. On success the node is at the cluster of its offset, counted from the start
  -- of the chain. DE_SEEK is returned where the chain ends too early, which is its last cluster
  -- in a read, or a damaged entry; DE_HNDLDSKFULL only in a write, when no cluster is free. The
  -- search for a free cluster stays in the table.
  pub map_cluster_lem :
      (mode : ℕ) (n : Fnode) (v : Volume F)
      → relcluster n < 2 ^ 32
      → 2 ≤ F.size
      → IsAt F T (first_cluster n) n v
      → HintOk F T v.hint
      → Ends F T (first_cluster n) (relcluster n) mode v (map_cluster F mode n v)
  unfolding map_cluster
  map_cluster_lem mode n v small some_clusters at ok =
      let two = Follows-two (content v.fat) (first_cluster n) n.f_cluster_offset n.f_cluster at in
      let chain : (n.f_cluster == free) ≡ false = ground arith in
      rw chain (seek-Ends (first_cluster n) mode n v small some_clusters at refl ok)

  -- The file has no clusters.
  abbrev pub IsEmpty : Fnode → Type 0
  IsEmpty n = (n.f_cluster ≡ free) × (n.f_cluster_offset ≡ 0) × (n.f_sft_idx ≢ 255)

  begin-Ends :
      (mode : ℕ) (n : Fnode) (v : Volume F) (t : ℕ × Fnode × Volume F)
      → relcluster n < 2 ^ 32
      → 2 ≤ F.size
      → mode ≢ xfr_read
      → IsEmpty n
      → F.size < 2 ^ 32
      → Extended F T n v t
      → Ends F T (t.0) (relcluster n) mode v (grown F (seek F mode) enter (some t))
  begin-Ends mode n v (k, n', v') small some_clusters write (empty, at_start, file) words
        (ok, inr (is_n, full, same, all)) =
      let test : (k == long_last_cluster) ≡ true = ground (arith, full) in
      rw test (
        ok,
        Same-Keeps F T v.fat v'.fat same,
        (write, λ c inside is. all c inside (sym (same c) ∙ is)),
      )
  begin-Ends mode n v (k, n', v') small some_clusters write (empty, at_start, file) words
        (ok, inl (is_n, joined)) =
      let ((two, below), is, entries) = joined in
      let short = T.short in
      let test : (k == long_last_cluster) ≡ false = ground arith in
      let kept = Joined-Keeps F T n.f_cluster k v.fat v'.fat (inl empty) joined in
      let none_yet : (n.f_cluster == free) ≡ true = ground (arith, empty) in
      let m : Fnode = setdstart F k n in
      let same_n : n' ≡ m = is_n ∙ rw none_yet refl in
      let is_file : (n.f_sft_idx == 255) ≡ false = ground arith in
      let is_start : first_cluster (enter k m) ≡ k = rw is_file (elim (Bool-cases F.wide) [
        | inl wide ↦ rw wide (ground arith)
        | inr narrow ↦ let limit = T.narrow narrow in rw narrow (ground arith)
      ]) in
      rw test (
        Ends-later F T k (relcluster n) mode v v' (seek F mode (enter k n') v') kept (
          rw same_n (
            seek-Ends k mode (enter k m) v' small some_clusters (rw at_start (Follows.start two))
              is_start ok)))

  -- Writing to an empty file: the first cluster that joins it becomes its start, and from there
  -- on `map_cluster` does what it does on a file with clusters.
  pub map_cluster-empty :
      (mode : ℕ) (n : Fnode) (v : Volume F)
      → relcluster n < 2 ^ 32
      → 2 ≤ F.size
      → mode ≢ xfr_read
      → IsEmpty n
      → HintOk F T v.hint
      → (k : ℕ) × Ends F T k (relcluster n) mode v (map_cluster F mode n v)
  unfolding map_cluster
  map_cluster-empty mode n v small some_clusters write empty ok =
      let (t, run, extended) = extend_lem F T n v some_clusters ok (inl empty.0) in
      let none_yet : (n.f_cluster == free) ≡ true = ground (arith, empty.0) in
      let writes : (mode == xfr_read) ≡ false = ground arith in
      let short = T.short in
      (
        t.0,
        rw none_yet (
            rw writes (
              rw run
                (begin-Ends mode n v t small some_clusters write empty (omega arith) extended))),
      )
