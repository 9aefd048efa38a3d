-- ===== src/MemMgr/Resize/Whole.antt =====
-- kernel/memmgr.c: `DosMemChange` as a function on the list of the blocks of a sound chain.
use fdkernel.Common.{
  ℕ, ◌+◌, ◌-◌, ◌%◌, ◌<◌, ◌≡◌, inl, inr, refl, Bool, true, List, [], ◌∷◌, ◌++◌, arith, ltb,
  if◌then◌else◌, Option, some, none, ℤ, pos, negsuc, Bool-cases, ◌∙◌, subst,
}
use fdkernel.MemMgr.State.{Mcb, Mem, Kernel, mcb_free, seg_mod}
use fdkernel.MemMgr.Chain.{Chain, extent, merge, joined, extent_bound}
use fdkernel.MemMgr.Graft.{Chain-drop, Chain-graft_list}
use fdkernel.MemMgr.Join.Refine.{head_lem, join_mcbs-merge}
use fdkernel.MemMgr.Walk.Whole.{length_bound}
use fdkernel.MemMgr.Alloc.{chain_fuel}
use fdkernel.MemMgr.Resize.{ChangeResult, after_grow, dos_mem_change}
use fdkernel.MemMgr.Resize.Change.{shrink_blocks, shrink_lem}

-- `merge` by its first block and the others.
unfoldable pub merged : Mcb → List Mcb → Mcb
merged b [] = b
merged b (c ∷ cs) = if mcb_free c then merged (joined b c) cs else b

unfoldable pub unmerged : List Mcb → List Mcb
unmerged [] = []
unmerged (c ∷ cs) = if mcb_free c then unmerged cs else c ∷ cs

pub merge_form : (b : Mcb) (bs : List Mcb) → merge b bs ≡ merged b bs ∷ unmerged bs
unfolding merge merged unmerged
merge_form b [] = refl
merge_form b (c ∷ cs) = ground (arith, merge_form (joined b c) cs)

-- The result code, `*maxSize`, and the blocks from the changed one on.
pub record Changed : Type 0 where
  pub code : ℤ
  pub max_size : Option ℕ
  pub blocks : List Mcb

unfoldable pub change_blocks : ℕ → ℕ → Bool → Mcb → List Mcb → Changed
change_blocks psp size wants b post =
    if ltb b.m_size size
    then (if ltb (merged b post).m_size size
        then record {
          code = negsuc 7;
          max_size = if wants then some (merged b post).m_size else none;
          blocks = merged b post ∷ unmerged post;
        }
        else record {
          code = pos 0;
          max_size = none;
          blocks = shrink_blocks psp size (merged b post) (unmerged post);
        })
    else record { code = pos 0; max_size = none; blocks = shrink_blocks psp size b post }

-- From the changed block on.
abbrev Does : ℕ → Mem → Changed → Option ChangeResult → Type 0
Does p m spec run =
    (m' : Mem) × (run ≡ some (record { code = spec.code; max_size = spec.max_size; mem = m' }))
    × Chain m' p spec.blocks
    × ((x : ℕ) → x < p → m' x ≡ m x)

after_grow_lem :
    (psp p size : ℕ) (wants : Bool) (m m1 : Mem) (b : Mcb) (post : List Mcb)
    → ltb b.m_size size ≡ true
    → Chain m1 p (merge b post)
    → ((x : ℕ) → x < p → m1 x ≡ m x)
    → Does p m
        (change_blocks psp size wants b post)
        (after_grow psp p size wants (some (pos 0, m1)))
unfolding change_blocks
after_grow_lem psp p size wants m m1 b post small h same =
    let h' = subst (λ bs. Chain m1 p bs) (merge_form b post) h in
    let (mp, valid, bound) = head_lem m1 p (merged b post) (unmerged post) h' in
    elim (Bool-cases (ltb (merged b post).m_size size)) [
      | inl still ↦ (m1, unfold after_grow in rw (mp, still, small), rw (small, still) h', same)
      | inr enough ↦
          let (m2, run, chain, below) =
            shrink_lem psp p size m1 (merged b post) (unmerged post) h' in
          (
            m2,
            unfold after_grow in rw (mp, enough, small) run,
            rw (small, enough) chain,
            λ x lo. below x lo ∙ same x lo,
          )
    ]

change_from :
    (para p size : ℕ) (wants : Bool) (k : Kernel) (b : Mcb) (post : List Mcb)
    → (para + seg_mod - 1) % seg_mod ≡ p
    → Chain k.mem p (b ∷ post)
    → Does p k.mem (change_blocks k.cu_psp size wants b post) (dos_mem_change para size wants k)
change_from para p size wants k b post at h =
    let (mp, valid, bound) = head_lem k.mem p b post h in
    elim (Bool-cases (ltb b.m_size size)) [
      | inl small ↦
          let (m1, run, chain, same) =
            join_mcbs-merge chain_fuel p k.mem b post
              (omega (arith, length_bound k.mem p (b ∷ post) h)) h in
          let (m2, grown, chain2, below) =
            after_grow_lem k.cu_psp p size wants k.mem m1 b post small chain
              (λ x lo. same x (inl lo)) in
          (m2, unfold dos_mem_change in rw (at, mp, valid, small, run) grown, chain2, below)
      | inr fits ↦
          let (m2, run, chain, below) = shrink_lem k.cu_psp p size k.mem b post h in
          (
            m2,
            unfold dos_mem_change change_blocks in rw (at, mp, valid, fits) run,
            unfold change_blocks in rw fits chain,
            below,
          )
    ]

-- `DosMemChange` on any block of a sound chain, given by the segment behind its control block:
-- it succeeds unless the block, with the unused blocks behind it, is too small; then it reports
-- the size that it reached. Either way the chain is sound, the blocks before the changed one are
-- as they were, and the blocks from there on are those that `change_blocks` lists: a block that
-- grows takes in the unused blocks behind it, and what is cut off becomes one unused block with
-- those behind it.
pub dos_mem_change_lem :
    (para size : ℕ) (wants : Bool) (k : Kernel) (pre : List Mcb) (b : Mcb) (post : List Mcb)
    → Chain k.mem k.first_mcb (pre ++ b ∷ post)
    → para ≡ k.first_mcb + extent pre + 1
    → let spec = change_blocks k.cu_psp size wants b post in
      (m' : Mem) × (dos_mem_change para size wants k
        ≡ some (record { code = spec.code; max_size = spec.max_size; mem = m' }))
      × Chain m' k.first_mcb (pre ++ spec.blocks)
dos_mem_change_lem para size wants k pre b post h e =
    let q = k.first_mcb + extent pre in
    let here = Chain-drop k.mem k.first_mcb pre b post h in
    let bound = extent_bound k.mem q (b ∷ post) here in
    let (m', run, chain, below) = change_from para q size wants k b post (omega arith) here in
    (
      m',
      run,
      Chain-graft_list k.mem m' k.first_mcb q pre b post
          (change_blocks k.cu_psp size wants b post).blocks h refl below chain,
    )
