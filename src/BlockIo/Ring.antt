-- ===== src/BlockIo/Ring.antt =====
-- The ring of kernel/blockio.c as a map from blocks to data: taking one buffer out and putting it
-- to the front changes nothing of it.
use fdkernel.Common.{
  ℕ, ◌+◌, ◌≤◌, ◌≡◌, ◌⊎◌, inl, inr, refl, Bool, true, false, not, ◌&&◌, Option, none, some, List, [],
  ◌∷◌, All, if◌then◌else◌, arith, Bool-cases, Option-cases, ltb, subst,
}
use fdkernel.BlockIo.Cache.{
  Buf, is_hit, first_where, last_where, last_of, fat_count, taken, victim, set_uncache, searchblock,
}

module _ {A : Type 0} where
  -- `c` taken out of a ring leaves the others in their order.
  pub data Takes (c : Buf A) : List (Buf A) → List (Buf A) → Type 0 where
    here : (bs : List (Buf A)) → Takes c bs (c ∷ bs)
    there : (b : Buf A) {cs bs : List (Buf A)} → Takes c cs bs → Takes c (b ∷ cs) (b ∷ bs)

  -- How many buffers hold a block.
  abbrev pub holders : ℕ → ℕ → List (Buf A) → ℕ
  holders u b [] = 0
  holders u b (x ∷ xs) = (if is_hit b u x then 1 else 0) + holders u b xs

  -- The data of a block in the ring.
  abbrev pub lookup : List (Buf A) → ℕ → ℕ → Option A
  lookup [] u b = none
  lookup (x ∷ xs) u b = if is_hit b u x then some x.b_buffer else lookup xs u b

  pub All-Takes :
      (P : Buf A → Type 0) {c : Buf A} {cs bs : List (Buf A)}
      → Takes c cs bs
      → All P bs
      → All P (c ∷ cs)
  All-Takes P (here bs) all = all
  All-Takes P (there b t) (p, all) = let (q, rest) = All-Takes P t all in (q, (p, rest))

  pub holders-Takes :
      (u b : ℕ) {c : Buf A} {cs bs : List (Buf A)}
      → Takes c cs bs
      → holders u b bs ≡ holders u b (c ∷ cs)
  holders-Takes u b (here bs) = refl
  holders-Takes u b (there x t) = omega (arith, holders-Takes u b t)

  pub holders_zero : (u b : ℕ) (bs : List (Buf A)) → holders u b bs ≡ 0 → lookup bs u b ≡ none
  holders_zero u b [] h = refl
  holders_zero u b (x ∷ xs) h = ground (arith, holders_zero u b xs)

  pub lookup-Takes :
      (u b : ℕ) {c : Buf A} {cs bs : List (Buf A)}
      → Takes c cs bs
      → holders u b bs ≤ 1
      → lookup bs u b ≡ lookup (c ∷ cs) u b
  lookup-Takes u b (here bs) h = refl
  lookup-Takes u b (there x t) h = ground (arith, lookup-Takes u b t, holders-Takes u b t)

  -- What the searches for a buffer find.
  abbrev pub Found : (Buf A → Bool) → List (Buf A) → Option (Buf A × List (Buf A)) → Type 0
  Found test bs none = All (λ b. test b ≡ false) bs
  Found test bs (some (c, cs)) = (test c ≡ true) × Takes c cs bs

  Found-first :
      (test : Buf A → Bool) (b : Buf A) (bs : List (Buf A)) (o : Option (Buf A × List (Buf A)))
      → Found test bs o
      → Found test (b ∷ bs) (
          if test b then some (b, bs) else elim o [ none ↦ none | some (c, cs) ↦ some (c, b ∷ cs) ])
  Found-first test b bs none h = elim (Bool-cases (test b)) [
    | inl yes_b ↦ rw yes_b (yes_b, here bs)
    | inr no_b ↦ rw no_b (no_b, h)
  ]
  Found-first test b bs (some (c, cs)) (h, t) = elim (Bool-cases (test b)) [
    | inl yes_b ↦ rw yes_b (yes_b, here bs)
    | inr no_b ↦ rw no_b (h, there b t)
  ]

  pub first_where-Found :
      (test : Buf A → Bool) (bs : List (Buf A)) → Found test bs (first_where test bs)
  unfolding first_where
  first_where-Found test [] = tt
  first_where-Found test (b ∷ bs) =
      Found-first test b bs (first_where test bs) (first_where-Found test bs)

  Found-last :
      (test : Buf A → Bool) (b : Buf A) (bs : List (Buf A)) (o : Option (Buf A × List (Buf A)))
      → Found test bs o
      → Found test (b ∷ bs) (elim o [
        | some (c, cs) ↦ some (c, b ∷ cs)
        | none ↦ if test b then some (b, bs) else none
      ])
  Found-last test b bs none h = elim (Bool-cases (test b)) [
    | inl yes_b ↦ rw yes_b (yes_b, here bs)
    | inr no_b ↦ rw no_b (no_b, h)
  ]
  Found-last test b bs (some (c, cs)) (h, t) = (h, there b t)

  last_where-Found : (test : Buf A → Bool) (bs : List (Buf A)) → Found test bs (last_where test bs)
  unfolding last_where
  last_where-Found test [] = tt
  last_where-Found test (b ∷ bs) =
      Found-last test b bs (last_where test bs) (last_where-Found test bs)

  last_of-Takes :
      (b : Buf A) (bs : List (Buf A)) → Takes ((last_of b bs).0) ((last_of b bs).1) (b ∷ bs)
  unfolding last_of
  last_of-Takes b [] = here []
  last_of-Takes b (c ∷ cs) = there b (last_of-Takes c cs)

  taken-Takes :
      (test : Buf A → Bool) (bs : List (Buf A)) (o : Option (Buf A × List (Buf A)))
      (d : Buf A × List (Buf A))
      → Found test bs o
      → Takes d.0 d.1 bs
      → Takes ((taken o d).0) ((taken o d).1) bs
  taken-Takes test bs none d h t = t
  taken-Takes test bs (some (c, cs)) d (h, t) t' = t

  victim-Takes :
      (b : Buf A) (bs : List (Buf A)) → Takes ((victim b bs).0) ((victim b bs).1) (b ∷ bs)
  unfolding victim
  victim-Takes b bs =
      let ring = b ∷ bs in
      let last = last_of-Takes b bs in
      taken-Takes (λ c. c.b_flag.uncache) ring (last_where (λ c. c.b_flag.uncache) ring) _
        (last_where-Found (λ c. c.b_flag.uncache) ring)
        (elim (Bool-cases (b.b_flag.fat_area && ltb (fat_count ring) 3)) [
          | inl low ↦ rw low (
              taken-Takes (λ c. not (c.b_flag.fat_area)) ring
                (last_where (λ c. not (c.b_flag.fat_area)) ring) (last_of b bs)
                (last_where-Found (λ c. not (c.b_flag.fat_area)) ring) last)
          | inr enough ↦ rw enough last
        ])

  lookup-none :
      (u b : ℕ) (bs : List (Buf A))
      → All (λ x. is_hit b u x ≡ false) bs
      → (lookup bs u b ≡ none) × (holders u b bs ≡ 0)
  lookup-none u b [] h = (refl, refl)
  lookup-none u b (x ∷ xs) (p, h) = ground (arith, lookup-none u b xs h)

  -- The two outcomes of the search: the block is found, or nowhere, and a buffer is given up.
  pub searchblock_lem :
      (blkno dsk : ℕ) (b : Buf A) (bs : List (Buf A))
      → (c : Buf A) × (cs : List (Buf A)) × Takes c cs (b ∷ bs)
        × (((searchblock blkno dsk b bs ≡ (set_uncache false c, cs)) × (is_hit blkno dsk c ≡ true))
            ⊎ ((searchblock blkno dsk b bs ≡ (set_uncache true c, cs))
                × (lookup (b ∷ bs) dsk blkno ≡ none)
                × (holders dsk blkno (b ∷ bs) ≡ 0)))
  unfolding searchblock
  searchblock_lem blkno dsk b bs =
      let found = first_where-Found (is_hit blkno dsk) (b ∷ bs) in
      elim (Option-cases (first_where (is_hit blkno dsk) (b ∷ bs))) [
        | inl e ↦
            let (c, cs) = victim b bs in
            let nowhere =
              lookup-none dsk blkno (b ∷ bs) (subst (Found (is_hit blkno dsk) (b ∷ bs)) e found) in
            (c, cs, victim-Takes b bs, inr (rw (e, searchblock), nowhere.0, nowhere.1))
        | inr ((c, cs), e) ↦
            let (hit, t) = subst (Found (is_hit blkno dsk) (b ∷ bs)) e found in
            (c, cs, t, inl (rw (e, searchblock), hit))
      ]
