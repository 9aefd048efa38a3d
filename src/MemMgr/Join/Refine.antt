-- ===== src/MemMgr/Join/Refine.antt =====
-- kernel/memmgr.c: `joinMCBs` on a sound chain does what `merge` does to the list of its blocks.
use fdkernel.Common.{
  ℕ, zero, suc, ◌+◌, ◌<◌, ◌≡◌, ◌≢◌, inl, inr, refl, true, false, List, [], ◌∷◌, arith, length, some,
  pos, Bool-cases, ◌∙◌, subst,
}
use fdkernel.MemMgr.State.{Mcb, Mem, mcb_normal, mcb_last, seg_mod, next_mcb, mcb_free, mcb_valid}
use fdkernel.MemMgr.Join.{absorb, join_mcbs}
use fdkernel.MemMgr.Chain.{Chain, extent, joined, merge, SameOutside, Chain-frame, extent_bound}

-- One round on two blocks of a chain.
absorb_lem :
    (m : Mem) (p q : ℕ) (b c : Mcb)
    → m p ≡ b
    → m q ≡ c
    → p ≢ q
    → b.m_size + c.m_size + 1 < seg_mod
    → (absorb m p q p ≡ joined b c) × ((x : ℕ) → x ≢ p → x ≢ q → absorb m p q x ≡ m x)
absorb_lem m p q b c mp mq ne h = (ground arith, λ x xp xq. ground arith)

-- Only the blocks at `p` and `q` are written.
absorb_other : (m : Mem) (p q x : ℕ) → x ≢ p → x ≢ q → absorb m p q x ≡ m x
absorb_other m p q x xp xq = ground arith

Chain-absorb :
    (m : Mem) (p : ℕ) (b c : Mcb) (cs : List Mcb)
    → Chain m p (b ∷ c ∷ cs)
    → Chain (absorb m p (p + b.m_size + 1)) p (joined b c ∷ cs)
Chain-absorb m p b c [] h =
    let q = p + b.m_size + 1 in
    ((absorb_lem m p q b c h.0 h.3.0 (omega arith) (omega arith)).0, h.3.1, omega arith)
Chain-absorb m p b c (d ∷ ds) h =
    let q = p + b.m_size + 1 in
    let bound = extent_bound m (q + c.m_size + 1) (d ∷ ds) h.3.3 in
    let kept =
      Chain-frame m (absorb m p q) (q + c.m_size + 1) (d ∷ ds)
        (λ x lo hi. absorb_other m p q x (omega arith) (omega arith)) h.3.3 in
    (
      (absorb_lem m p q b c h.0 h.3.0 (omega arith) (omega arith)).0,
      h.3.1,
      omega arith,
      subst (λ t. Chain (absorb m p q) t (d ∷ ds)) (omega arith) kept,
    )

-- The first block of a chain, and its kind.
pub head_lem :
    (m : Mem) (p : ℕ) (b : Mcb) (bs : List Mcb)
    → Chain m p (b ∷ bs)
    → (m p ≡ b) × (mcb_valid b ≡ true) × (p + b.m_size + 1 < 0xffff)
head_lem m p b [] h = (h.0, ground arith, h.2)
head_lem m p b (c ∷ cs) h = (h.0, ground arith, h.2)

pub next_mcb_lem :
    (m : Mem) (p : ℕ) (b : Mcb)
    → m p ≡ b
    → p + b.m_size + 1 < 0xffff
    → next_mcb m p ≡ p + b.m_size + 1
unfolding next_mcb
next_mcb_lem m p b e h = rw e (omega arith)

-- The three ways in which a round ends on a sound chain.
join_at_end :
    (fuel p : ℕ) (m : Mem) (b : Mcb)
    → m p ≡ b
    → b.m_type ≡ mcb_last
    → join_mcbs (suc fuel) p m ≡ some (pos 0, m)
unfolding join_mcbs
join_at_end fuel p m b e t = rw (e, t)

join_at_used :
    (fuel p q : ℕ) (m : Mem) (b c : Mcb)
    → m p ≡ b
    → b.m_type ≡ mcb_normal
    → next_mcb m p ≡ q
    → m q ≡ c
    → mcb_free c ≡ false
    → join_mcbs (suc fuel) p m ≡ some (pos 0, m)
unfolding join_mcbs
join_at_used fuel p q m b c e t at f used = rw (e, t, at, f, used)

join_at_free :
    (fuel p q : ℕ) (m : Mem) (b c : Mcb)
    → m p ≡ b
    → b.m_type ≡ mcb_normal
    → next_mcb m p ≡ q
    → m q ≡ c
    → mcb_free c ≡ true
    → mcb_valid c ≡ true
    → join_mcbs (suc fuel) p m ≡ join_mcbs fuel p (absorb m p q)
unfolding join_mcbs
join_at_free fuel p q m b c e t at f free valid = rw (e, t, at, f, free, valid)

-- On a sound chain and with a round for each block behind `p`, `joinMCBs` succeeds, the blocks
-- from `p` on become those with the unused blocks behind the first one merged into it, and no
-- segment outside the chain is written.
pub join_mcbs-merge :
    (fuel p : ℕ) (m : Mem) (b : Mcb) (bs : List Mcb)
    → length bs < fuel
    → Chain m p (b ∷ bs)
    → (m' : Mem) × (join_mcbs fuel p m ≡ some (pos 0, m'))
      × Chain m' p (merge b bs)
      × SameOutside p (p + extent (b ∷ bs)) m m'
unfolding merge extent
join_mcbs-merge zero p m b bs f h = absurd (omega arith)
join_mcbs-merge (suc fuel) p m b [] f h = (m, join_at_end fuel p m b h.0 h.1, h, λ x o. refl)
join_mcbs-merge (suc fuel) p m b (c ∷ cs) f h =
    let q = p + b.m_size + 1 in
    let at = next_mcb_lem m p b h.0 h.2 in
    let (mq, valid, bound) = head_lem m q c cs h.3 in
    elim (Bool-cases (mcb_free c)) [
      | inr used ↦ (m, join_at_used fuel p q m b c h.0 h.1 at mq used, rw used h, λ x o. refl)
      | inl free ↦
          let (m', run, chain, same) =
            join_mcbs-merge fuel p (absorb m p q) (joined b c) cs (omega arith)
              (Chain-absorb m p b c cs h) in
          let size : extent (joined b c ∷ cs) ≡ extent (b ∷ c ∷ cs) = omega arith in
          (
            m',
            join_at_free fuel p q m b c h.0 h.1 at mq free valid ∙ run,
            rw free chain,
            λ x o. same x (rw size o) ∙ absorb_other m p q x (omega arith) (omega arith),
          )
    ]
