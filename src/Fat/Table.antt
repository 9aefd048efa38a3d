-- ===== src/Fat/Table.antt =====
-- `link_fat` of kernel/fattab.c as a whole, on a drive with a FAT12.
use fdkernel.Common.{
  ℕ, ◌+◌, ◌-◌, ◌*◌, ◌/◌, ◌%◌, ◌^◌, ◌≤◌, ◌<◌, ◌≡◌, ◌≢◌, ◌⊎◌, inl, inr, refl, Bool, true, false, some,
  ◌==◌, arith, Bool-cases, ap, ◌∙◌, sym, subst, fun_ext,
}
use fdkernel.Fat.State.{
  Dpb, Drive, is_fat32, is_fat12, free, put_buffer, mark_dirty, get_fat_block, as_fat_block,
  read_cluster, long_bad, long_last_cluster,
}
use fdkernel.Fat.Link.{
  link_fat, link_block, link_entry, link_12, finish, refused, entry_sector, entry_index,
  entry_of_12,
}
use fdkernel.Fat.FreeCount.{count_free}
use fdkernel.Fat.Packed.{entry_at, store_at, position}
use fdkernel.Fat.Twelve.{
  flat, Prepared, link_12_places, at_places, at_places_read, at_places_write, written, flat-written,
}
use fdkernel.Fat.Places.{IsFat12, fat12_kind, locate}

-- A drive whose whole FAT can be read.
pub record SoundWith (d : Dpb) (readable : ℕ → Bool) : Type 0 where
  pub kind : IsFat12 d
  pub can_read : (p : ℕ) → p ≤ position d.size + 1 → readable (d.fatstrt + p / d.secsize) ≡ true

abbrev pub Sound : Drive → Type 0
Sound s = SoundWith s.dpb s.readable

-- An index of the table.
abbrev pub IsCluster : Drive → ℕ → Type 0
IsCluster s c = (1 < c) × (c ≤ s.dpb.size)

-- What may be written: free, the next cluster, or one of the two marks.
abbrev pub IsLink : Drive → ℕ → Type 0
IsLink s v = (v ≢ 1) × ((v ≤ s.dpb.size) ⊎ ((v ≡ long_bad) ⊎ (v ≡ long_last_cluster)))

not_refused_read :
    (s : Drive) (c : ℕ) → IsFat12 s.dpb → IsCluster s c → refused s.dpb c read_cluster ≡ false
unfolding refused
not_refused_read s c kind within =
    let sort = (fat12_kind s.dpb kind).1 in rw sort (ground (arith, kind.clusters))

not_refused :
    (s : Drive) (c v : ℕ) → IsFat12 s.dpb → IsCluster s c → IsLink s v → refused s.dpb c v ≡ false
unfolding refused
not_refused s c v kind within link = let sort = (fat12_kind s.dpb kind).1 in rw sort (ground arith)

abbrev with_first : ℕ → Drive → Drive
with_first n s = put_buffer n (as_fat_block s.dpb (s.block n)) s

flat-with_first : (n : ℕ) (s : Drive) (q : ℕ) → flat (with_first n s) q ≡ flat s q
flat-with_first n s q = ground arith

link_fat_run :
    (c v n : ℕ) (s : Drive)
    → n ≡ entry_sector s.dpb c
    → refused s.dpb c v ≡ false
    → s.readable n ≡ true
    → is_fat12 s.dpb ≡ true
    → link_fat c v s ≡ finish v n (link_12 c v n (entry_index s.dpb c) (with_first n s))
unfolding link_fat link_block link_entry get_fat_block
link_fat_run c v n s e good can sort = rw (sym e, good, can, sort)

mark_dirty-flat : (n : ℕ) (s : Drive) (q : ℕ) → flat (mark_dirty n s) q ≡ flat s q
mark_dirty-flat n s q = ground arith

abbrev counted : ℕ → Drive → Drive
counted x s = record s { dpb = record (s.dpb) { xnfreeclst = x } }

-- The count of free clusters, all ones when it is not known.
abbrev pub free_count : Drive → ℕ
free_count s = s.dpb.xnfreeclst % 2 ^ 16

abbrev pub one_if : Bool → ℕ
one_if true = 1
one_if false = 0

count_free_lem :
    (v : ℕ) (w : Bool) (s : Drive)
    → is_fat32 s.dpb ≡ false
    → (x : ℕ) × (count_free v w s ≡ some (0, counted x s))
      × (0 < free_count s
          → free_count s < 65534
          → x % 2 ^ 16 + one_if w ≡ free_count s + one_if (v == free))
unfolding count_free
count_free_lem v true s sort = elim (Bool-cases (v == free)) [
  | inl e ↦ elim (Bool-cases (s.dpb.xnfreeclst % 2 ^ 16 == 65535)) [
    | inl u ↦ (s.dpb.xnfreeclst, rw (sort, e, u), λ some_left some_room. rw e (ground arith))
    | inr u ↦ (
      s.dpb.xnfreeclst / 2 ^ 16 * 2 ^ 16 + s.dpb.xnfreeclst % 2 ^ 16,
      rw (sort, e, u),
      λ some_left some_room. rw e (ground arith),
    )
  ]
  | inr e ↦ elim (Bool-cases (s.dpb.xnfreeclst % 2 ^ 16 == 65535)) [
    | inl u ↦ (s.dpb.xnfreeclst, rw (sort, e, u), λ some_left some_room. rw e (ground arith))
    | inr u ↦ (
      s.dpb.xnfreeclst / 2 ^ 16 * 2 ^ 16 + (s.dpb.xnfreeclst % 2 ^ 16 + 2 ^ 16 - 1) % 2 ^ 16,
      rw (sort, e, u),
      λ some_left some_room. rw e (ground arith),
    )
  ]
]
count_free_lem v false s sort = elim (Bool-cases (v == free)) [
  | inl e ↦ elim (Bool-cases (s.dpb.xnfreeclst % 2 ^ 16 == 65535)) [
    | inl u ↦ (s.dpb.xnfreeclst, rw (sort, e, u), λ some_left some_room. rw e (ground arith))
    | inr u ↦ (
      s.dpb.xnfreeclst / 2 ^ 16 * 2 ^ 16 + (s.dpb.xnfreeclst % 2 ^ 16 + 1) % 2 ^ 16,
      rw (sort, e, u),
      λ some_left some_room. rw e (ground arith),
    )
  ]
  | inr e ↦ (s.dpb.xnfreeclst, rw (sort, e), λ some_left some_room. rw e refl)
]

readable_entry :
    (s : Drive) (c : ℕ)
    → Sound s
    → IsCluster s c
    → (s.readable (entry_sector s.dpb c) ≡ true)
      × (s.readable (s.dpb.fatstrt + (position c + 1) / s.dpb.secsize) ≡ true)
readable_entry s c sound (low, below) = (
  rw ((locate s.dpb c sound.kind below).0) (sound.can_read (position c) (omega arith)),
  sound.can_read (position c + 1) (omega arith),
)

-- Fetching the blocks, and the call on the two bytes of the entry.
places_run :
    (c v : ℕ) (s : Drive)
    → Sound s
    → IsCluster s c
    → refused s.dpb c v ≡ false
    → (t : Drive) × Prepared s t
      × (link_fat c v s ≡ finish v (entry_sector s.dpb c) (at_places t.dpb c v t))
places_run c v s sound within good =
    let n = entry_sector s.dpb c in
    let (can, can_next) = readable_entry s c sound within in
    let (t, (d, r, f), run) = link_12_places c v (with_first n s) sound.kind within.1 can_next in
    let sort = (fat12_kind s.dpb sound.kind).0 in
    (
      t,
      (d, r, λ q. f q ∙ flat-with_first n s q),
      link_fat_run c v n s refl good can sort ∙ ap (finish v n) run,
    )

Sound-subst : (s t : Drive) → t.dpb ≡ s.dpb → t.readable ≡ s.readable → Sound s → Sound t
Sound-subst s t d r sound = rw (d, r) sound

-- On a drive with a readable FAT12, reading an entry yields what the table holds there, with the
-- marks of FAT12 translated, and changes no byte of it and no parameter of the drive.
pub link_fat-read :
    (c : ℕ) (s : Drive)
    → Sound s
    → IsCluster s c
    → (t : Drive) × (link_fat c read_cluster s ≡ some (entry_of_12 (entry_at (flat s) c), t))
      × (flat t ≡ flat s)
      × (t.dpb ≡ s.dpb)
      × Sound t
unfolding finish
link_fat-read c s sound within =
    let good = not_refused_read s c sound.kind within in
    let (t, (d, r, f), run) = places_run c read_cluster s sound within good in
    let same : flat t ≡ flat s = fun_ext f in
    (
      t,
      run
          ∙ ap (finish read_cluster (entry_sector s.dpb c)) (at_places_read c t)
          ∙ ap (λ fat. some (entry_of_12 (entry_at fat c), t)) same,
      same,
      d,
      Sound-subst s t d r sound,
    )

low_bits : (s : Drive) (v : ℕ) → IsFat12 s.dpb → IsLink s v → v % 2 ^ 16 ≢ 1
low_bits s v kind link = ground (arith, kind.clusters_few)

counted-Sound : (x : ℕ) (s : Drive) → Sound s → Sound (counted x s)
counted-Sound x s sound =
    let kind = sound.kind in
    record {
      kind = record {
        sector = kind.sector;
        sector_short = kind.sector_short;
        clusters = kind.clusters;
        clusters_few = kind.clusters_few;
        sectors = kind.sectors;
        start = kind.start;
      };
      can_read = sound.can_read;
    }

-- On a drive with a readable FAT12, writing an entry succeeds, where the value is free, a number
-- up to the last cluster other than 1, or one of the two marks: it stores the low 12 bits of the
-- value and nothing else in the table, and the count of free clusters follows where it is
-- between 1 and 65533.
pub link_fat-write :
    (c v : ℕ) (s : Drive)
    → Sound s
    → IsCluster s c
    → IsLink s v
    → (t : Drive) × (link_fat c v s ≡ some (0, t))
      × (flat t ≡ store_at (flat s) c v)
      × Sound t
      × (t.dpb.size ≡ s.dpb.size)
      × (0 < free_count s
          → free_count s < 65534
          → free_count t + one_if (entry_at (flat s) c == free) ≡ free_count s + one_if (v == free))
unfolding finish
link_fat-write c v s sound within link =
    let good = not_refused s c v sound.kind within link in
    let n = entry_sector s.dpb c in
    let (t, (d, r, f), run) = places_run c v s sound within good in
    let same : flat t ≡ flat s = fun_ext f in
    let w = entry_at (flat t) c == free in
    let u = mark_dirty n (written c v t) in
    let sound_t : Sound t = Sound-subst s t d r sound in
    let counts : free_count t ≡ free_count s = ap (λ d. d.xnfreeclst % 2 ^ 16) d in
    let (x, count, follows) = count_free_lem v w u ((fat12_kind t.dpb sound_t.kind).1) in
    (
      counted x u,
      run ∙ ap (finish v n) (at_places_write c v t (low_bits s v sound.kind link)) ∙ count,
      fun_ext (λ q. mark_dirty-flat n (written c v t) q ∙ flat-written c v t sound_t.kind.sector q)
          ∙ ap (λ fat. store_at fat c v) same,
      counted-Sound x u sound_t,
      ap (λ d. d.size) d,
      λ known room.
          ap (λ fat. x % 2 ^ 16 + one_if (entry_at fat c == free)) (sym same)
          ∙ follows (subst (λ k. 0 < k) (sym counts) known)
              (subst (λ k. k < 65534) (sym counts) room)
          ∙ ap (λ k. k + one_if (v == free)) counts,
    )
