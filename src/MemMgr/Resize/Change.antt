-- ===== src/MemMgr/Resize/Change.antt =====
-- kernel/memmgr.c: `DosMemChange` on a block of a sound chain, against a function on the list of
-- the blocks.
use fdkernel.Common.{
  ℕ, ◌+◌, ◌-◌, ◌<◌, ◌≡◌, ◌≢◌, inl, inr, refl, true, List, [], ◌∷◌, arith, ltb, if◌then◌else◌, some,
  pos, Bool-cases, ap, ◌∙◌, subst,
}
use fdkernel.MemMgr.State.{
  Mcb, Mem, mcb_normal, free_psp, seg_mod, blank_name, next_mcb_size, write, set_psp,
}
use fdkernel.MemMgr.Chain.{Chain, merge, Chain-frame}
use fdkernel.MemMgr.Graft.{Chain-write_head, Chain-cons}
use fdkernel.MemMgr.Join.{join_mcbs}
use fdkernel.MemMgr.Join.Refine.{head_lem, join_mcbs-merge}
use fdkernel.MemMgr.Walk.Whole.{length_bound}
use fdkernel.MemMgr.Alloc.{chain_fuel}
use fdkernel.MemMgr.Resize.{changed, cut_at, cut_off, after_cut, shrink}

-- The block that stays, and the unused one that is cut off.
abbrev pub kept : ℕ → Mcb → Mcb
kept size b = record b { m_type = mcb_normal; m_size = size }

abbrev pub spare : ℕ → Mcb → Mcb
spare size b = record {
  m_type = b.m_type;
  m_psp = free_psp;
  m_size = b.m_size - size - 1;
  m_name = blank_name;
}

abbrev pub owned_by : ℕ → Mcb → Mcb
owned_by psp b = record b { m_psp = psp }

cut_at_lem :
    (p q size : ℕ) (m : Mem) (b : Mcb)
    → m p ≡ b
    → p ≢ q
    → size < b.m_size
    → b.m_size < seg_mod
    → (cut_at p q size m p ≡ kept size b)
      × (cut_at p q size m q ≡ spare size b)
      × ((x : ℕ) → x ≢ p → x ≢ q → cut_at p q size m x ≡ m x)
unfolding cut_at
cut_at_lem p q size m b e ne h k = (ground arith, ground arith, λ x d d'. ground arith)

next_size_lem : (p size : ℕ) → p + size + 1 < 0xffff → next_mcb_size p size ≡ p + size + 1
unfolding next_mcb_size
next_size_lem p size h = omega arith

-- What `DosMemChange` does to the list of the blocks from the changed one on, once it is known
-- that the block is large enough.
unfoldable pub shrink_blocks : ℕ → ℕ → Mcb → List Mcb → List Mcb
shrink_blocks psp size b post =
    if ltb size b.m_size
    then owned_by psp (kept size b) ∷ merge (spare size b) post
    else owned_by psp b ∷ post

-- The chain right after the cut.
Chain-cut_at :
    (p size : ℕ) (m : Mem) (b : Mcb) (post : List Mcb)
    → Chain m p (b ∷ post)
    → size < b.m_size
    → Chain (cut_at p (p + size + 1) size m) p (kept size b ∷ spare size b ∷ post)
Chain-cut_at p size m b [] h lt =
    let (here, behind, other) =
      cut_at_lem p (p + size + 1) size m b h.0 (omega arith) lt (omega arith) in
    (here, refl, omega arith, (behind, h.1, omega arith))
Chain-cut_at p size m b (c ∷ cs) h lt =
    let (here, behind, other) =
      cut_at_lem p (p + size + 1) size m b h.0 (omega arith) lt (omega arith) in
    let m' = cut_at p (p + size + 1) size m in
    let rest =
      Chain-frame m m' (p + b.m_size + 1) (c ∷ cs) (λ x lo hi. other x (omega arith) (omega arith))
        h.3 in
    (
      here,
      refl,
      omega arith,
      (behind, h.1, omega arith, subst (λ t. Chain m' t (c ∷ cs)) (omega arith) rest),
    )

cut_off_eq :
    (p size : ℕ) (m : Mem)
    → p + size + 1 < 0xffff
    → cut_off p size m ≡ cut_at p (p + size + 1) size m
unfolding cut_off
cut_off_eq p size m h = ap (λ q. cut_at p q size m) (next_size_lem p size h)

shrink_run :
    (psp p size : ℕ) (m m2 : Mem) (b : Mcb)
    → m p ≡ b
    → size < b.m_size
    → p + b.m_size + 1 < 0xffff
    → join_mcbs chain_fuel (p + size + 1) (cut_at p (p + size + 1) size m) ≡ some (pos 0, m2)
    → shrink psp p size m ≡ some (changed (pos 0) (set_psp m2 p psp))
unfolding shrink
shrink_run psp p size m m2 b e lt h run =
    let less : ltb size b.m_size ≡ true = ground arith in
    rw (
      cut_off_eq p size m (omega arith),
      next_size_lem p size (omega arith),
      e,
      less,
      run,
      after_cut,
    )

write_below : (m : Mem) (p x : ℕ) (b : Mcb) → x < p → write m p b x ≡ m x
write_below m p x b h = ground arith

-- `DosMemChange` from the point where the block is not too small.
pub shrink_lem :
    (psp p size : ℕ) (m : Mem) (b : Mcb) (post : List Mcb)
    → Chain m p (b ∷ post)
    → (m' : Mem) × (shrink psp p size m ≡ some (changed (pos 0) m'))
      × Chain m' p (shrink_blocks psp size b post)
      × ((x : ℕ) → x < p → m' x ≡ m x)
unfolding shrink_blocks
shrink_lem psp p size m b post h =
    let (mp, valid, bound) = head_lem m p b post h in
    elim (Bool-cases (ltb size b.m_size)) [
      | inr fits ↦ (
        write m p (owned_by psp b),
        unfold shrink in rw (mp, fits),
        rw fits (Chain-write_head m p b (owned_by psp b) post h refl refl),
        λ x lo. ground arith,
      )
      | inl larger ↦
          let q = p + size + 1 in
          let lt : size < b.m_size = ground arith in
          let m1 = cut_at p q size m in
          let cut = Chain-cut_at p size m b post h lt in
          let (m2, run, chain, same) =
            join_mcbs-merge chain_fuel q m1 (spare size b) post
              (omega (arith, length_bound m1 q (spare size b ∷ post) cut.3)) cut.3 in
          let here : m2 p ≡ kept size b =
            same p (inl (omega arith))
            ∙ (cut_at_lem p q size m b mp (omega arith) lt (omega arith)).0 in
          let joined_up =
            Chain-cons m2 p (kept size b) (merge (spare size b) post) here refl (omega arith)
              chain in
          (
            set_psp m2 p psp,
            shrink_run psp p size m m2 b mp lt bound run,
            rw (larger, here)
                (Chain-write_head m2 p (kept size b) (owned_by psp (kept size b))
                  (merge (spare size b) post) joined_up refl refl),
            λ x lo.
                write_below m2 p x _ lo
                ∙ same x (inl (omega arith))
                ∙ (cut_at_lem p q size m b mp (omega arith) lt (omega arith)).2 x (omega arith)
                    (omega arith),
          )
    ]
