-- ===== src/Clusters/Twelve.antt =====
-- The FAT12 of kernel/fattab.c as the table that kernel/fatfs.c works on.
use fdkernel.Common.{
  ℕ, ◌≤◌, ◌<◌, ◌≡◌, ◌⊎◌, inl, inr, refl, Bool, true, false, some, ltb, leb, ◌==◌, if◌then◌else◌,
  ◌||◌, arith, ap, ◌∙◌, dec_le, ℕ_discrete,
}
use fdkernel.Fat.State.{Drive, read_cluster, long_last_cluster, free}
use fdkernel.Fat.Link.{
  link_fat, next_cluster, is_free_cluster, check_candidate, is_free, refused, max_cluster,
  entry_of_12,
}
use fdkernel.Fat.Packed.{entry_at}
use fdkernel.Fat.Places.{fat12_kind}
use fdkernel.Fat.Twelve.{flat}
use fdkernel.Fat.Table.{Sound, IsCluster, IsLink, link_fat-read, link_fat-write}
use fdkernel.Fat.RoundTrip.{entry_after, entry_of_12-link, flat_short}
use fdkernel.Fat.Chain.{value_of, InUse, IsNext, next_cluster_lem}
use fdkernel.Clusters.Chain.{Fat}
use fdkernel.Clusters.Laws.{InRange, IsValue, IsTable}

-- A drive with a readable FAT12 of `size` as its last cluster.
pub record Ready (size : ℕ) : Type 0 where
  pub drive : Drive
  pub sound : Sound drive
  pub is_size : drive.dpb.size ≡ size

refused_outside : (c x : ℕ) (s : Drive) → Sound s → ¬ IsCluster s c → link_fat c x s ≡ some (1, s)
unfolding link_fat refused
refused_outside c x s sound out =
    let sort = (fat12_kind s.dpb sound.kind).1 in
    let test : (leb c 1 || ltb (max_cluster s.dpb) c) ≡ true = rw sort (ground arith) in
    rw test refl

dec_IsCluster : (s : Drive) (c : ℕ) → Dec (IsCluster s c)
dec_IsCluster s c = elim (dec_le 2 c) [
  | no below ↦ no (λ within. below within.0)
  | yes two ↦ elim (dec_le c s.dpb.size) [
    | yes inside ↦ yes (two, inside)
    | no out ↦ no (λ within. out within.1)
  ]
]

-- A next entry that is off the drive or not in use is no sound one.
bad_next :
    (s : Drive) (v size : ℕ)
    → s.dpb.size ≡ size
    → IsNext v
    → (IsCluster s v × (¬ InUse s v)) ⊎ (s.dpb.size < v)
    → ¬ ((v ≡ long_last_cluster) ⊎ ((2 ≤ v) × (v ≤ size) × InUse s v))
bad_next s v size e next bad (inl last) = absurd (omega arith)
bad_next s v size e next (inl (on, unused)) (inr (two, below, used)) = unused used
bad_next s v size e next (inr out) (inr (two, below, used)) = omega arith

swap_test : (c j x y : ℕ) → (if c == j then x else y) ≡ (if j == c then x else y)
swap_test c j x y = ground arith

module _ (size : ℕ) where
  -- What a read of an entry leaves: the same table.
  abbrev pub Unchanged : Ready size → Ready size → Type 0
  Unchanged w w' = flat w'.drive ≡ flat w.drive

  -- The result of `next_cluster`, for any number.
  abbrev pub NextIn : ℕ → Ready size → Type 0
  NextIn c w =
      (r : ℕ) × (w' : Ready size) × (next_cluster c w.drive ≡ some (r, w'.drive))
      × Unchanged w w'
      × ((r ≡ 1) ⊎ ((2 ≤ c) × (c ≤ size) × (r ≡ value_of w.drive c)))
      × ((2 ≤ c)
          → (c ≤ size)
          → (value_of w.drive c ≡ long_last_cluster)
            ⊎ ((2 ≤ value_of w.drive c)
                × (value_of w.drive c ≤ size)
                × InUse w.drive (value_of w.drive c))
          → r ≡ value_of w.drive c)

  pub next_in : (c : ℕ) (w : Ready size) → NextIn c w
  unfolding next_cluster check_candidate
  next_in c w =
      let s = w.drive in
      let e = w.is_size in
      elim (dec_IsCluster s c) [
        | no out ↦ (
          1,
          w,
          ap check_candidate (refused_outside c read_cluster s w.sound out),
          refl,
          inl refl,
          λ two below. absurd (out (two, ground arith)),
        )
        | yes within ↦
            let (r, t, run, same, d, sound, answer) = next_cluster_lem c s w.sound within in
            let size_t : t.dpb.size ≡ size = ap (λ x. x.size) d ∙ e in
            let below : c ≤ size = omega (arith, within.1) in
            (
              r,
              record { drive = t; sound = sound; is_size = size_t },
              run,
              same,
              elim answer [
                | inl (is, stop) ↦ inr (within.0, below, is)
                | inr (inl (is, on, used)) ↦ inr (within.0, below, is)
                | inr (inr (one, next, bad)) ↦ inl one
              ],
              λ two below sound_next. elim answer [
                | inl (is, stop) ↦ is
                | inr (inl (is, on, used)) ↦ is
                | inr (inr (one, next, bad)) ↦
                    absurd (bad_next s (value_of s c) size e next bad sound_next)
              ],
            )
      ]

  pub free_in :
      (c : ℕ) (w : Ready size)
      → (b : Bool) × (w' : Ready size) × (is_free_cluster c w.drive ≡ some (b, w'.drive))
        × Unchanged w w'
        × ((2 ≤ c) → (c ≤ size) → b ≡ (value_of w.drive c == free))
  unfolding is_free_cluster link_fat
  free_in c w =
      let s = w.drive in
      let e = w.is_size in
      elim (dec_IsCluster s c) [
        | no out ↦ (
          false,
          w,
          ap is_free (refused_outside c read_cluster s w.sound out),
          refl,
          λ two below. absurd (out (two, ground arith)),
        )
        | yes within ↦
            let (t, run, same, d, sound) = link_fat-read c s w.sound within in
            (
              value_of s c == free,
              record { drive = t; sound = sound; is_size = ap (λ x. x.size) d ∙ e },
              ap is_free run,
              same,
              λ two below. refl,
            )
      ]

  abbrev pub MayLink : ℕ → Type 0
  MayLink x = (x ≡ free) ⊎ (((2 ≤ x) × (x ≤ size)) ⊎ (x ≡ long_last_cluster))

  link_in :
      (c x : ℕ) (w : Ready size)
      → (2 ≤ c) × (c ≤ size)
      → MayLink x
      → (w' : Ready size) × (link_fat c x w.drive ≡ some (0, w'.drive))
        × ((j : ℕ) → value_of w'.drive j ≡ (if j == c then x else value_of w.drive j))
  link_in c x w (two, below) value =
      let d = w.drive in
      let e = w.is_size in
      let within : IsCluster d c = (two, ground arith) in
      let link : IsLink d x = ground arith in
      let (t, run, bytes, sound, same, _) = link_fat-write c x d w.sound within link in
      let back = entry_of_12-link d x w.sound.kind link in
      (
        record { drive = t; sound = sound; is_size = same ∙ e },
        run,
        λ j.
            ap (λ fat. entry_of_12 (entry_at fat j)) bytes
            ∙ entry_after (flat d) c x j (flat_short d) back
            ∙ swap_test c j x (value_of d j),
      )

  -- What kernel/fatfs.c writes into the table: free, a cluster, or the mark of the last one.
  pub dec_link : (c x : ℕ) → Dec (((2 ≤ c) × (c ≤ size)) × MayLink x)
  dec_link c x = elim (dec_le 2 c) [
    | no low ↦ no (λ good. low good.0.0)
    | yes two ↦ elim (dec_le c size) [
      | no high ↦ no (λ good. high good.0.1)
      | yes below ↦ elim (ℕ_discrete x free) [
        | yes is_free_now ↦ yes ((two, below), inl is_free_now)
        | no used ↦ elim (ℕ_discrete x long_last_cluster) [
          | yes last ↦ yes ((two, below), inr (inr last))
          | no more ↦ elim (dec_le 2 x) [
            | no small ↦ no (λ good. ground arith)
            | yes x_two ↦ elim (dec_le x size) [
              | yes x_below ↦ yes ((two, below), inr (inl (x_two, x_below)))
              | no big ↦ no (λ good. ground arith)
            ]
          ]
        ]
      ]
    ]
  ]

  pub link_or :
      (c x : ℕ) (w : Ready size) → Dec (((2 ≤ c) × (c ≤ size)) × MayLink x) → ℕ × Ready size
  link_or c x w (yes good) = (0, (link_in c x w good.0 good.1).0)
  link_or c x w (no bad) = (1, w)

  -- The table as kernel/fatfs.c sees it; it never links what `dec_link` rules out.
  abbrev pub twelve : Fat
  twelve = record {
    World = Ready size;
    wide = false;
    size = size;
    next_cluster = λ c w. ((next_in c w).0, (next_in c w).1);
    is_free_cluster = λ c w. ((free_in c w).0, (free_in c w).1);
    link_fat = λ c x w. link_or c x w (dec_link c x);
    write_fsinfo = λ h w. w;
  }

  link_or_lem :
      (c x : ℕ) (w : Ready size) (d : Dec (((2 ≤ c) × (c ≤ size)) × MayLink x))
      → (2 ≤ c) × (c ≤ size)
      → MayLink x
      → ((link_or c x w d).0 ≡ 0)
        × (link_fat c x w.drive ≡ some (0, (link_or c x w d).1.drive))
        × ((j : ℕ)
            → value_of (link_or c x w d).1.drive j ≡ (if j == c then x else value_of w.drive j))
  unfolding link_or
  link_or_lem c x w (yes good) within value =
      let (w', run, entries) = link_in c x w good.0 good.1 in (refl, run, entries)
  link_or_lem c x w (no bad) within value = absurd (bad (within, value))

  next_used :
      (c : ℕ) (w : Ready size)
      → (value_of w.drive c ≡ long_last_cluster)
        ⊎ (InRange twelve (value_of w.drive c)
            × IsValue twelve (value_of w.drive (value_of w.drive c)))
      → (value_of w.drive c ≡ long_last_cluster)
        ⊎ ((2 ≤ value_of w.drive c)
            × (value_of w.drive c ≤ size)
            × InUse w.drive (value_of w.drive c))
  next_used c w (inl last) = inl last
  next_used c w (inr (inside, (two, used))) =
      let e = w.is_size in
      inr (
        inside.0,
        inside.1,
        (two, elim used [ inl below ↦ inl (omega arith) | inr mark ↦ inr mark ]),
      )

  pub twelve-IsTable : size < 4085 → IsTable twelve
  twelve-IsTable few = record {
    content = λ w. value_of w.drive;
    short = omega arith;
    narrow = λ e. omega arith;
    next_keeps = λ c w j. ap (λ fat. entry_of_12 (entry_at fat j)) ((next_in c w).3);
    next_reads = λ c w. elim ((next_in c w).4) [
      | inl one ↦ inl one
      | inr (two, below, is) ↦ inr ((two, below), is)
    ];
    next_works = λ c w within sound. (next_in c w).5 within.0 within.1 (next_used c w sound);
    free_keeps = λ c w j. ap (λ fat. entry_of_12 (entry_at fat j)) ((free_in c w).3);
    free_reads = λ c w within. (free_in c w).4 within.0 within.1;
    link_works = λ c x w within value. (
      (link_or_lem c x w (dec_link c x) within value).0,
      (link_or_lem c x w (dec_link c x) within value).2,
    );
    fsinfo_keeps = λ h w j. refl;
  }

  -- The interface of kernel/fatfs.c is met by kernel/fattab.c: the laws hold, and each operation is
  -- the function of that name on the drive.
  pub record Implements : Type 1 where
    pub is_table : IsTable twelve
    pub next_is :
        (c : ℕ) (w : Ready size)
        → next_cluster c w.drive
          ≡ some ((twelve.next_cluster c w).0, (twelve.next_cluster c w).1.drive)
    pub free_is :
        (c : ℕ) (w : Ready size)
        → is_free_cluster c w.drive
          ≡ some ((twelve.is_free_cluster c w).0, (twelve.is_free_cluster c w).1.drive)
    pub link_is :
        (c x : ℕ) (w : Ready size)
        → InRange twelve c
        → MayLink x
        → link_fat c x w.drive ≡ some (0, (twelve.link_fat c x w).1.drive)

  -- A readable FAT12 is a table as the file system needs it: the laws that find_fat_free, extend,
  -- map_cluster and wipe_out_clusters rest on hold of the code of link_fat, next_cluster and
  -- is_free_cluster, for every drive of this size with at most 4084 as its last cluster.
  pub twelve-Implements : size < 4085 → Implements
  twelve-Implements few = record {
    is_table = twelve-IsTable few;
    next_is = λ c w. (next_in c w).2;
    free_is = λ c w. (free_in c w).2;
    link_is = λ c x w within value. (link_or_lem c x w (dec_link c x) within value).1;
  }
