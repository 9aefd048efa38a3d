-- ===== src/Fat/RoundTrip.antt =====
-- `link_fat` of kernel/fattab.c: what is written to a FAT12 is read back.
use fdkernel.Common.{
  ℕ, ◌%◌, ◌^◌, ◌<◌, ◌≡◌, true, false, some, ◌==◌, if◌then◌else◌, arith, ap, ◌∙◌, sym, ℕ_discrete,
  ==_iff,
}
use fdkernel.Fat.State.{Drive, read_cluster}
use fdkernel.Fat.Link.{link_fat, entry_of_12}
use fdkernel.Fat.Packed.{entry_at, store_at, entry_at-store_at}
use fdkernel.Fat.Twelve.{flat}
use fdkernel.Fat.Places.{IsFat12}
use fdkernel.Fat.Table.{Sound, IsCluster, IsLink, link_fat-read, link_fat-write}

pub entry_of_12-link : (s : Drive) (v : ℕ) → IsFat12 s.dpb → IsLink s v → entry_of_12 (v % 4096) ≡ v
unfolding entry_of_12
entry_of_12-link s v kind link = ground (arith, kind.clusters_few)

pub flat_short : (s : Drive) (p : ℕ) → flat s p < 2 ^ 8
flat_short s p = omega arith

pub entry_after :
    (fat : ℕ → ℕ) (c v c' : ℕ)
    → ((p : ℕ) → fat p < 2 ^ 8)
    → entry_of_12 (v % 4096) ≡ v
    → entry_of_12 (entry_at (store_at fat c v) c')
      ≡ (if c == c' then v else entry_of_12 (entry_at fat c'))
entry_after fat c v c' short back =
    let (self, others) = entry_at-store_at fat c v c' short in
    elim (ℕ_discrete c c') [
      | yes same ↦
          let test : (c == c') ≡ true = (==_iff c c').1 same in
          rw test (rw (sym same) (ap entry_of_12 self ∙ back))
      | no other ↦
          let test : (c == c') ≡ false = ground arith in rw test (ap entry_of_12 (others other))
    ]

-- On a drive with a readable FAT12, writing the entry of a cluster succeeds, where the value is
-- free, a number up to the last cluster other than 1, or one of the two marks; then reading this
-- cluster yields the value written, and reading another cluster yields what it did before.
pub link_fat-link_fat :
    (c v c' : ℕ) (s : Drive)
    → Sound s
    → IsCluster s c
    → IsLink s v
    → IsCluster s c'
    → (t u w : Drive) × (before : ℕ) × (link_fat c v s ≡ some (0, t))
      × (link_fat c' read_cluster s ≡ some (before, u))
      × (link_fat c' read_cluster t ≡ some (if c == c' then v else before, w))
link_fat-link_fat c v c' s sound within link within' =
    let (t, wrote, bytes, sound_t, size, counts) = link_fat-write c v s sound within link in
    let (u, read, kept, d, _) = link_fat-read c' s sound within' in
    let (w, read', kept', d', _) = link_fat-read c' t sound_t (within'.0, rw size within'.1) in
    let back = entry_of_12-link s v sound.kind link in
    let result =
      ap (λ fat. entry_of_12 (entry_at fat c')) bytes
      ∙ entry_after (flat s) c v c' (flat_short s) back in
    (t, u, w, entry_of_12 (entry_at (flat s) c'), wrote, read, read' ∙ ap (λ x. some (x, w)) result)
