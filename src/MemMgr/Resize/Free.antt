-- ===== src/MemMgr/Resize/Free.antt =====
-- kernel/memmgr.c: `DosMemFree` on blocks of a sound chain, and the blocks joined after it.
use fdkernel.Common.{
  ℕ, ◌+◌, ◌<◌, ◌≡◌, ◌≢◌, ◌≤◌, ◌⊎◌, refl, true, List, [], ◌∷◌, ◌++◌, arith, pos, some, ap, sym, ◌∙◌,
  inl, inr,
}
use fdkernel.MemMgr.State.{Mcb, Mem, mcb_valid, write}
use fdkernel.MemMgr.Chain.{Chain, extent, unused, joined, merge, SameOutside}
use fdkernel.MemMgr.Graft.{Chain-drop, Chain-graft, Chain-graft_list, Chain-write_head}
use fdkernel.MemMgr.Join.Refine.{head_lem, join_mcbs-merge}
use fdkernel.MemMgr.Resize.{dos_mem_free}
use fdkernel.MemMgr.Join.{join_mcbs}
use fdkernel.MemMgr.Alloc.{chain_fuel}
use fdkernel.MemMgr.Walk.Whole.{length_bound}

dos_mem_free_run :
    (q : ℕ) (m : Mem) (b : Mcb)
    → m q ≡ b
    → mcb_valid b ≡ true
    → 0 < q
    → dos_mem_free q m ≡ (pos 0, write m q (unused b))
unfolding dos_mem_free
dos_mem_free_run q m b e v z = ground arith

free_block :
    (p : ℕ) (m : Mem) (pre : List Mcb) (b : Mcb) (post : List Mcb)
    → 0 < p
    → Chain m p (pre ++ b ∷ post)
    → (m' : Mem) × (dos_mem_free (p + extent pre) m ≡ (pos 0, m'))
      × Chain m' p (pre ++ unused b ∷ post)
      × ((x : ℕ) → x ≢ p + extent pre → m' x ≡ m x)
free_block p m pre b post z h =
    let q = p + extent pre in
    let here = Chain-drop m p pre b post h in
    let (mq, valid, bound) = head_lem m q b post here in
    let m' : Mem = write m q (unused b) in
    (
      m',
      dos_mem_free_run q m b mq valid (omega arith),
      Chain-graft m m' p q pre b post (unused b) post h refl (λ x lo. ground arith)
          (Chain-write_head m q b (unused b) post here refl refl),
      λ x d. ground arith,
    )

outside :
    (q : ℕ) (b c : Mcb) (post : List Mcb) (x : ℕ)
    → (x < q) ⊎ (q + extent (b ∷ c ∷ post) ≤ x)
    → (x ≢ q) × (x ≢ q + (b.m_size + 1 + 0))
unfolding extent
outside q b c post x (inl lo) = (omega arith, omega arith)
outside q b c post x (inr hi) = (omega arith, omega arith)

-- Two neighbours of a sound chain given back one after the other: `DosMemFree` succeeds on both,
-- whatever process they belonged to, and `joinMCBs` from the first of them then makes one unused
-- block of the two and of all unused blocks behind them. Every other block and all memory outside
-- of these blocks stays as it was.
pub dos_mem_free-join_mcbs :
    (p : ℕ) (m : Mem) (pre : List Mcb) (b c : Mcb) (post : List Mcb)
    → 0 < p
    → Chain m p (pre ++ b ∷ c ∷ post)
    → (m1 : Mem) × (m2 : Mem) × (m3 : Mem) × (dos_mem_free (p + extent pre) m ≡ (pos 0, m1))
      × (dos_mem_free (p + extent pre + b.m_size + 1) m1 ≡ (pos 0, m2))
      × (join_mcbs chain_fuel (p + extent pre) m2 ≡ some (pos 0, m3))
      × Chain m3 p (pre ++ merge (joined (unused b) (unused c)) post)
      × SameOutside (p + extent pre) (p + extent pre + extent (b ∷ c ∷ post)) m m3
unfolding extent merge
dos_mem_free-join_mcbs p m pre b c post z h =
    let q = p + extent pre in
    let next : q + (b.m_size + 1 + 0) ≡ q + b.m_size + 1 = omega arith in
    let (m1, run1, chain1, same1) = free_block p m pre b (c ∷ post) z h in
    let here1 = Chain-drop m1 p pre (unused b) (c ∷ post) chain1 in
    let (m2, run2, chain2, same2) = free_block q m1 (unused b ∷ []) c post (omega arith) here1 in
    let (m3, run3, chain3, same3) =
      join_mcbs-merge chain_fuel q m2 (unused b) (unused c ∷ post)
        (omega (arith, length_bound m2 q (unused b ∷ unused c ∷ post) chain2)) chain2 in
    let same : SameOutside q (q + extent (b ∷ c ∷ post)) m m3 =
      λ x o. same3 x o ∙ same2 x (outside q b c post x o).1 ∙ same1 x (outside q b c post x o).0 in
    (
      m1,
      m2,
      m3,
      run1,
      ap (λ r. dos_mem_free r m1) (sym next) ∙ run2,
      run3,
      Chain-graft_list m m3 p q pre b (c ∷ post) (merge (joined (unused b) (unused c)) post) h refl
          (λ x lo. same x (inl lo)) chain3,
      same,
    )
