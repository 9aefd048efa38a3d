-- ===== src/Fat/Chain.antt =====
-- `next_cluster` of kernel/fattab.c on a drive with a FAT12.
use fdkernel.Common.{
  ℕ, ◌≤◌, ◌<◌, ◌≡◌, ◌⊎◌, inl, inr, refl, Bool, true, false, ◌&&◌, ◌||◌, some, ltb, leb,
  if◌then◌else◌, arith, Bool-cases, ap, ap₂, ◌∙◌, sym, subst, dec_le,
}
use fdkernel.Fat.State.{Dpb, Drive, read_cluster, long_bad}
use fdkernel.Fat.Link.{
  link_fat, refused, max_cluster, entry_of_12, next_cluster, check_candidate, follow,
}
use fdkernel.Fat.Packed.{entry_at}
use fdkernel.Fat.Places.{IsFat12, fat12_kind}
use fdkernel.Fat.Twelve.{flat}
use fdkernel.Fat.Table.{Sound, IsCluster, link_fat-read}

-- The value of an entry in the table of the drive.
abbrev pub value_of : Drive → ℕ → ℕ
value_of s c = entry_of_12 (entry_at (flat s) c)

-- The value of an entry in use: it names a cluster of the drive, or is one of the two marks.
abbrev pub UsedValue : ℕ → ℕ → Type 0
UsedValue size x = (2 ≤ x) × ((x ≤ size) ⊎ (long_bad ≤ x))

abbrev pub InUse : Drive → ℕ → Type 0
InUse s c = UsedValue s.dpb.size (value_of s c)

-- An answer that names a cluster.
abbrev pub IsNext : ℕ → Type 0
IsNext r = (2 ≤ r) × (r < long_bad)

check_stop :
    (k : ℕ) (u : Drive)
    → ((ltb k 2 || leb long_bad k) ≡ true)
    → check_candidate (some (k, u)) ≡ some (k, u)
unfolding check_candidate
check_stop k u e = rw e

check_go :
    (k : ℕ) (u : Drive)
    → ((ltb k 2 || leb long_bad k) ≡ false)
    → check_candidate (some (k, u)) ≡ follow k (link_fat k read_cluster u)
unfolding check_candidate
check_go k u e = rw e

-- The second test of the code, on the entry of the candidate.
abbrev wrong : Dpb → ℕ → Bool
wrong d x = ltb x 2 || (ltb x long_bad && ltb (max_cluster d) x)

follow_lem :
    (k x : ℕ) (w : Drive) → follow k (some (x, w)) ≡ some (if wrong w.dpb x then 1 else k, w)
unfolding follow
follow_lem k x w = elim (Bool-cases (wrong w.dpb x)) [ inl e ↦ rw e | inr e ↦ rw e ]

wrong_iff :
    (d : Dpb) (x : ℕ)
    → IsFat12 d
    → ((wrong d x ≡ true) × (¬ ((2 ≤ x) × ((x ≤ d.size) ⊎ (long_bad ≤ x)))))
      ⊎ ((wrong d x ≡ false) × ((2 ≤ x) × ((x ≤ d.size) ⊎ (long_bad ≤ x))))
wrong_iff d x kind = let sort = (fat12_kind d kind).1 in rw sort (ground arith)

outside_refused : (k : ℕ) (d : Dpb) → IsFat12 d → d.size < k → refused d k read_cluster ≡ true
unfolding refused
outside_refused k d kind out = let sort = (fat12_kind d kind).1 in rw sort (ground arith)

outside_read :
    (k : ℕ) (u : Drive)
    → IsFat12 u.dpb
    → u.dpb.size < k
    → follow k (link_fat k read_cluster u) ≡ some (1, u)
unfolding link_fat follow
outside_read k u kind out = rw (outside_refused k u.dpb kind out)

-- What follows when the candidate lies on the drive.
candidate_inside :
    (k : ℕ) (u : Drive)
    → Sound u
    → IsCluster u k
    → (r : ℕ) × (t : Drive) × (follow k (link_fat k read_cluster u) ≡ some (r, t))
      × (flat t ≡ flat u)
      × (t.dpb ≡ u.dpb)
      × Sound t
      × (((r ≡ k) × InUse u k) ⊎ ((r ≡ 1) × (¬ InUse u k)))
candidate_inside k u sound within =
    let (w, read, kept, d, sound_w) = link_fat-read k u sound within in
    let x = value_of u k in
    let run : follow k (link_fat k read_cluster u) ≡ some (if wrong u.dpb x then 1 else k, w) =
      ap (follow k) read ∙ follow_lem k x w ∙ ap (λ e. some (if wrong e x then 1 else k, w)) d in
    elim (wrong_iff u.dpb x sound.kind) [
      | inl (e, free) ↦ (1, w, run ∙ rw e, kept, d, sound_w, inr (refl, free))
      | inr (e, used) ↦ (k, w, run ∙ rw e, kept, d, sound_w, inl (refl, used))
    ]

-- On a drive with a readable FAT12, `next_cluster` of a cluster always returns and changes no
-- byte of the table, no parameter of the drive and nothing of what can be read. An entry below 2 or a mark is returned as it is; the number of a cluster is
-- returned when it lies on the drive and its own entry is in use, and 1 is returned otherwise.
pub next_cluster_lem :
    (c : ℕ) (s : Drive)
    → Sound s
    → IsCluster s c
    → (r : ℕ) × (t : Drive) × (next_cluster c s ≡ some (r, t))
      × (flat t ≡ flat s)
      × (t.dpb ≡ s.dpb)
      × Sound t
      × (((r ≡ value_of s c) × (¬ IsNext (value_of s c)))
          ⊎ (((r ≡ value_of s c) × IsCluster s (value_of s c) × InUse s (value_of s c))
              ⊎ ((r ≡ 1)
                  × IsNext (value_of s c)
                  × ((IsCluster s (value_of s c) × (¬ InUse s (value_of s c)))
                      ⊎ (s.dpb.size < value_of s c)))))
unfolding next_cluster
next_cluster_lem c s sound within =
    let (u, read, kept, d, sound_u) = link_fat-read c s sound within in
    let k = value_of s c in
    let size : u.dpb.size ≡ s.dpb.size = ap (λ x. x.size) d in
    let used_same : InUse u k ≡ InUse s k =
      ap₂ UsedValue size (ap (λ fat. entry_of_12 (entry_at fat k)) kept) in
    let first = ap check_candidate read in
    elim (Bool-cases (ltb k 2 || leb long_bad k)) [
      | inl e ↦ (k, u, first ∙ check_stop k u e, kept, d, sound_u, inl (refl, λ next. ground arith))
      | inr e ↦ elim (dec_le k s.dpb.size) [
        | yes below ↦
            (let on_drive : IsCluster s k = (ground arith, below) in
              let (r, t, run, same, d', sound_t, answer) =
                candidate_inside k u sound_u (on_drive.0, rw size below) in
              (
                r,
                t,
                first ∙ check_go k u e ∙ run,
                same ∙ kept,
                d' ∙ d,
                sound_t,
                elim answer [
                  | inl (is_k, used) ↦ inr (inl (is_k, on_drive, subst (λ A. A) used_same used))
                  | inr (is_one, unused) ↦ inr (
                      inr (
                        is_one,
                        ground arith,
                        inl (on_drive, λ used. unused (subst (λ A. A) (sym used_same) used)),
                      ))
                ],
              ))
        | no out ↦ (
          1,
          u,
          first ∙ check_go k u e ∙ outside_read k u sound_u.kind (rw size (ground arith)),
          kept,
          d,
          sound_u,
          inr (inr (refl, ground arith, inr (ground arith))),
        )
      ]
    ]
