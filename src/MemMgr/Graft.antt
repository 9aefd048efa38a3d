-- ===== src/MemMgr/Graft.antt =====
-- Chains of memory control blocks: cutting one at a block, and changing its end.
use fdkernel.Common.{ℕ, ◌+◌, ◌≤◌, ◌<◌, ◌≡◌, List, [], ◌∷◌, ◌++◌, arith, length, ◌∙◌, subst}
use fdkernel.MemMgr.State.{Mcb, Mem, mcb_normal, write}
use fdkernel.MemMgr.Chain.{Chain, extent, Chain-frame}

pub extent-append : (xs ys : List Mcb) → extent (xs ++ ys) ≡ extent xs + extent ys
unfolding extent
extent-append [] ys = omega arith
extent-append (x ∷ xs) ys = omega (arith, extent-append xs ys)

pub length-le-extent : (bs : List Mcb) → length bs ≤ extent bs
unfolding extent
length-le-extent [] = omega arith
length-le-extent (b ∷ bs) = omega (arith, length-le-extent bs)

-- The part of a chain from one of its blocks on is a chain.
pub Chain-drop :
    (m : Mem) (p : ℕ) (pre : List Mcb) (b : Mcb) (post : List Mcb)
    → Chain m p (pre ++ b ∷ post)
    → Chain m (p + extent pre) (b ∷ post)
unfolding extent
Chain-drop m p [] b post h = subst (λ t. Chain m t (b ∷ post)) (omega arith) h
Chain-drop m p (a ∷ []) b post h = subst (λ t. Chain m t (b ∷ post)) (omega arith) h.3
Chain-drop m p (a ∷ a2 ∷ rest) b post h =
    subst (λ t. Chain m t (b ∷ post)) (omega arith)
      (Chain-drop m (p + a.m_size + 1) (a2 ∷ rest) b post h.3)

-- A change from one block on that leaves a chain there leaves a chain.
pub Chain-graft :
    (m n : Mem) (p q : ℕ) (pre : List Mcb) (b : Mcb) (post : List Mcb) (c : Mcb) (cs : List Mcb)
    → Chain m p (pre ++ b ∷ post)
    → q ≡ p + extent pre
    → ((x : ℕ) → x < q → n x ≡ m x)
    → Chain n q (c ∷ cs)
    → Chain n p (pre ++ c ∷ cs)
unfolding extent
Chain-graft m n p q [] b post c cs h e same k = subst (λ t. Chain n t (c ∷ cs)) (omega arith) k
Chain-graft m n p q (a ∷ []) b post c cs h e same k =
    (same p (omega arith) ∙ h.0, h.1, h.2, subst (λ t. Chain n t (c ∷ cs)) (omega arith) k)
Chain-graft m n p q (a ∷ a2 ∷ rest) b post c cs h e same k = (
  same p (omega arith) ∙ h.0,
  h.1,
  h.2,
  Chain-graft m n (p + a.m_size + 1) q (a2 ∷ rest) b post c cs h.3 (omega arith) same k,
)

-- Another block of the same type and size in the place of the first one.
pub Chain-write_head :
    (m : Mem) (p : ℕ) (b c : Mcb) (post : List Mcb)
    → Chain m p (b ∷ post)
    → c.m_type ≡ b.m_type
    → c.m_size ≡ b.m_size
    → Chain (write m p c) p (c ∷ post)
Chain-write_head m p b c [] h t s = (ground arith, t ∙ h.1, omega arith)
Chain-write_head m p b c (d ∷ ds) h t s = (
  ground arith,
  t ∙ h.1,
  omega arith,
  subst (λ q. Chain (write m p c) q (d ∷ ds)) (omega arith)
      (Chain-frame m (write m p c) (p + b.m_size + 1) (d ∷ ds) (λ x lo hi. ground arith) h.3),
)

pub Chain-cons :
    (m : Mem) (p : ℕ) (b : Mcb) (bs : List Mcb)
    → m p ≡ b
    → b.m_type ≡ mcb_normal
    → p + b.m_size + 1 < 0xffff
    → Chain m (p + b.m_size + 1) bs
    → Chain m p (b ∷ bs)
Chain-cons m p b [] e t h k = absurd k
Chain-cons m p b (c ∷ cs) e t h k = (e, t, h, k)

pub Chain-graft_list :
    (m n : Mem) (p q : ℕ) (pre : List Mcb) (b : Mcb) (post cs : List Mcb)
    → Chain m p (pre ++ b ∷ post)
    → q ≡ p + extent pre
    → ((x : ℕ) → x < q → n x ≡ m x)
    → Chain n q cs
    → Chain n p (pre ++ cs)
Chain-graft_list m n p q pre b post [] h e same k = absurd k
Chain-graft_list m n p q pre b post (c ∷ cs) h e same k =
    Chain-graft m n p q pre b post c cs h e same k
