-- ===== src/MemMgr/Chain.antt =====
-- The abstract view of kernel/memmgr.c: the list of the blocks that the control blocks chain.
use fdkernel.Common.{ℕ, ◌+◌, ◌≤◌, ◌<◌, ◌≡◌, refl, List, [], ◌∷◌, arith, if◌then◌else◌, ◌⊎◌, ◌∙◌}
use fdkernel.MemMgr.State.{Mcb, Mem, mcb_normal, mcb_last, mcb_free}

-- From segment `p` the memory holds the blocks of the list, one behind the other, the last one and
-- only that one marked as the end, and all below the end of the address space.
abbrev pub Chain : Mem → ℕ → List Mcb → Type 0
Chain m p [] = ⊥
Chain m p (b ∷ []) = (m p ≡ b) × (b.m_type ≡ mcb_last) × (p + b.m_size + 1 < 0xffff)
Chain m p (b ∷ c ∷ bs) =
    (m p ≡ b)
    × (b.m_type ≡ mcb_normal)
    × (p + b.m_size + 1 < 0xffff)
    × Chain m (p + b.m_size + 1) (c ∷ bs)

-- The paragraphs that blocks take, their control blocks included.
unfoldable pub extent : List Mcb → ℕ
extent [] = 0
extent (b ∷ bs) = b.m_size + 1 + extent bs

abbrev pub joined : Mcb → Mcb → Mcb
joined b c = record b { m_type = c.m_type; m_size = b.m_size + c.m_size + 1 }

-- A block that nobody uses: it belongs to no process and its eight bytes of name are zero.
abbrev pub unused : Mcb → Mcb
unused b = record {
  m_type = b.m_type;
  m_psp = 0;
  m_size = b.m_size;
  m_name = 0 ∷ 0 ∷ 0 ∷ 0 ∷ 0 ∷ 0 ∷ 0 ∷ 0 ∷ [];
}

-- A block takes in the unused blocks that follow it.
unfoldable pub merge : Mcb → List Mcb → List Mcb
merge b [] = b ∷ []
merge b (c ∷ cs) = if mcb_free c then merge (joined b c) cs else b ∷ c ∷ cs

-- Two memories agree outside the segments from `p` up to, and without, `q`.
abbrev pub SameOutside : ℕ → ℕ → Mem → Mem → Type 0
SameOutside p q m n = (x : ℕ) → (x < p) ⊎ (q ≤ x) → n x ≡ m x

pub extent-merge : (b : Mcb) (bs : List Mcb) → extent (merge b bs) ≡ extent (b ∷ bs)
unfolding extent merge
extent-merge b [] = refl
extent-merge b (c ∷ cs) = ground (arith, extent-merge (joined b c) cs)

-- A chain does not notice changes outside its segments.
pub Chain-frame :
    (m n : Mem) (p : ℕ) (bs : List Mcb)
    → ((x : ℕ) → p ≤ x → x < p + extent bs → n x ≡ m x)
    → Chain m p bs
    → Chain n p bs
unfolding extent
Chain-frame m n p [] same h = h
Chain-frame m n p (b ∷ []) same h = (same p (omega arith) (omega arith) ∙ h.0, h.1, h.2)
Chain-frame m n p (b ∷ c ∷ bs) same h = (
  same p (omega arith) (omega arith) ∙ h.0,
  h.1,
  h.2,
  Chain-frame m n (p + b.m_size + 1) (c ∷ bs) (λ x lo hi. same x (omega arith) (omega arith)) h.3,
)

pub extent_bound : (m : Mem) (p : ℕ) (bs : List Mcb) → Chain m p bs → p + extent bs < 0xffff
unfolding extent
extent_bound m p [] h = absurd h
extent_bound m p (b ∷ []) h = omega arith
extent_bound m p (b ∷ c ∷ bs) h = omega (arith, extent_bound m (p + b.m_size + 1) (c ∷ bs) h.3)
