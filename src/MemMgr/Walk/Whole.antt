-- ===== src/MemMgr/Walk/Whole.antt =====
-- kernel/memmgr.c: the walks over the chain of blocks.
use fdkernel.Common.{
  ℕ, zero, suc, ◌+◌, ◌≤◌, ◌<◌, ◌≡◌, ◌≢◌, ◌⊎◌, inl, inr, true, false, List, [], ◌∷◌, arith, ◌==◌,
  if◌then◌else◌, length, map, some, pos, negsuc, ℤ, ◌↔◌, refl, ap, sym, Bool-cases, ◌∙◌, subst,
}
use fdkernel.MemMgr.State.{Mcb, Mem, Kernel, mcb_normal, mcb_last, mcb_valid, next_mcb}
use fdkernel.MemMgr.Chain.{Chain, extent, SameOutside, unused, Chain-frame, extent_bound}
use fdkernel.MemMgr.Graft.{length-le-extent}
use fdkernel.MemMgr.Join.Refine.{next_mcb_lem, head_lem}
use fdkernel.MemMgr.Alloc.{chain_fuel}
use fdkernel.MemMgr.Resize.{dos_mem_free}
use fdkernel.MemMgr.Walk.{check_from, dos_mem_check, free_from, free_if_owned}

pub length_bound : (m : Mem) (p : ℕ) (bs : List Mcb) → Chain m p bs → length bs < chain_fuel
length_bound m p bs h = omega (arith, length-le-extent bs, extent_bound m p bs h)

-- From `p` the block `q` is reached over `n` blocks that are marked as normal.
abbrev pub Reaches : Mem → ℕ → ℕ → ℕ → Type 0
Reaches m p zero q = p ≡ q
Reaches m p (suc n) q = ((m p).m_type ≡ mcb_normal) × Reaches m (next_mcb m p) n q

-- What `DosMemCheck` says of the first block that is not marked as normal.
abbrev pub check_code : Mcb → ℤ
check_code b = if b.m_type == mcb_last then pos 0 else negsuc 6

-- The walk meets such a block in less than `fuel` steps.
abbrev pub Meets : Mem → ℕ → ℕ → ℤ → Type 0
Meets m p fuel c =
    (n : ℕ) × (q : ℕ) × (n < fuel)
    × Reaches m p n q
    × ((m q).m_type ≢ mcb_normal)
    × (c ≡ check_code (m q))

check_more :
    (fuel p : ℕ) (m : Mem)
    → (m p).m_type ≡ mcb_normal
    → check_from (suc fuel) p m ≡ check_from fuel (next_mcb m p) m
unfolding check_from
check_more fuel p m normal = rw normal refl

check_ends :
    (fuel p : ℕ) (m : Mem)
    → ((m p).m_type == mcb_normal) ≡ false
    → check_from (suc fuel) p m ≡ some (check_code (m p))
unfolding check_from
check_ends fuel p m other = elim (Bool-cases ((m p).m_type == mcb_last)) [
  | inl last ↦ rw last refl
  | inr bad ↦ rw bad (rw other refl)
]

next_Meets :
    (fuel p : ℕ) (m : Mem) (c : ℤ)
    → (m p).m_type ≡ mcb_normal
    → Meets m (next_mcb m p) fuel c
    → Meets m p (suc fuel) c
next_Meets fuel p m c normal (n, q, short, steps, other, is) =
    (suc n, q, omega arith, (normal, steps), other, is)

check_from-Meets : (fuel p : ℕ) (m : Mem) (c : ℤ) → check_from fuel p m ≡ some c → Meets m p fuel c
unfolding check_from
check_from-Meets zero p m c run = absurd (cc)
check_from-Meets (suc fuel) p m c run = elim (Bool-cases ((m p).m_type == mcb_normal)) [
  | inl normal ↦
      let type : (m p).m_type ≡ mcb_normal = ground arith in
      next_Meets fuel p m c type
        (check_from-Meets fuel (next_mcb m p) m c (sym (check_more fuel p m type) ∙ run))
  | inr other ↦
      let same : some c ≡ some (check_code (m p)) = sym run ∙ check_ends fuel p m other in
      (0, p, omega arith, refl, ground arith, cc)
]

Meets-check_from :
    (fuel p : ℕ) (m : Mem) (n q : ℕ)
    → n < fuel
    → Reaches m p n q
    → (m q).m_type ≢ mcb_normal
    → check_from fuel p m ≡ some (check_code (m q))
unfolding check_from
Meets-check_from zero p m n q short steps other = absurd (omega arith)
Meets-check_from (suc fuel) p m zero q short steps other =
    let odd : ((m p).m_type == mcb_normal) ≡ false =
      ground (arith, steps, other, ap (λ x. (m x).m_type) steps) in
    check_ends fuel p m odd ∙ ap (λ x. some (check_code (m x))) steps
Meets-check_from (suc fuel) p m (suc n) q short (normal, steps) other =
    check_more fuel p m normal
    ∙ (Meets-check_from fuel (next_mcb m p) m n q (omega arith) steps other)

-- `DosMemCheck` on any memory: it returns a code exactly if the walk from the first block, over
-- blocks that are marked as normal, meets one that is not, within 65536 blocks, and the code is
-- success if that block is marked as the last one and DE_MCBDESTRY otherwise.
pub dos_mem_check_iff :
    (k : Kernel) (c : ℤ) → (dos_mem_check k ≡ some c) ↔ Meets k.mem k.first_mcb chain_fuel c
unfolding dos_mem_check
dos_mem_check_iff k c = (
  check_from-Meets chain_fuel k.first_mcb k.mem c,
  λ (n, q, short, steps, other, is).
      Meets-check_from chain_fuel k.first_mcb k.mem n q short steps other ∙ ap some (sym is),
)

-- What the walk of `FreeProcessMem` does to a block.
abbrev pub freed_if : ℕ → Mcb → Mcb
freed_if ps b = if b.m_psp == ps then unused b else b

free_if_owned_lem :
    (ps p : ℕ) (m : Mem) (b : Mcb)
    → m p ≡ b
    → mcb_valid b ≡ true
    → p ≢ 0
    → (free_if_owned ps p m p ≡ freed_if ps b) × ((x : ℕ) → x ≢ p → free_if_owned ps p m x ≡ m x)
unfolding dos_mem_free
free_if_owned_lem ps p m b e v ne = (ground arith, λ x d. ground arith)

freed_if_shape :
    (ps : ℕ) (b : Mcb) → ((freed_if ps b).m_type ≡ b.m_type) × ((freed_if ps b).m_size ≡ b.m_size)
freed_if_shape ps b = ground arith

-- One round of the walk.
free_from_step :
    (fuel ps p : ℕ) (m : Mem) (b : Mcb)
    → m p ≡ b
    → mcb_valid b ≡ true
    → p ≢ 0
    → p + b.m_size + 1 < 0xffff
    → free_from (suc fuel) ps p m ≡ (
        if b.m_type == mcb_last
        then some (pos 0, free_if_owned ps p m)
        else free_from fuel ps (p + b.m_size + 1) (free_if_owned ps p m))
free_from_step fuel ps p m b e v ne h =
    let (here, other) = free_if_owned_lem ps p m b e v ne in
    let (t, s) = freed_if_shape ps b in
    let next = next_mcb_lem (free_if_owned ps p m) p (freed_if ps b) here (rw s h) in
    unfold free_from in rw (next, here, t, s, e, v)

free_from_end :
    (fuel ps p : ℕ) (m : Mem) (b : Mcb)
    → m p ≡ b
    → mcb_valid b ≡ true
    → p ≢ 0
    → p + b.m_size + 1 < 0xffff
    → b.m_type ≡ mcb_last
    → free_from (suc fuel) ps p m ≡ some (pos 0, free_if_owned ps p m)
free_from_end fuel ps p m b e v ne h t = free_from_step fuel ps p m b e v ne h ∙ rw t

free_from_more :
    (fuel ps p : ℕ) (m : Mem) (b : Mcb)
    → m p ≡ b
    → mcb_valid b ≡ true
    → p ≢ 0
    → p + b.m_size + 1 < 0xffff
    → b.m_type ≡ mcb_normal
    → free_from (suc fuel) ps p m ≡ free_from fuel ps (p + b.m_size + 1) (free_if_owned ps p m)
free_from_more fuel ps p m b e v ne h t = free_from_step fuel ps p m b e v ne h ∙ rw t

-- On a sound chain the walk of `FreeProcessMem` succeeds, releases exactly the blocks of the
-- process `ps`, and leaves every other block and every segment outside the chain alone.
pub free_from_lem :
    (fuel ps p : ℕ) (m : Mem) (bs : List Mcb)
    → length bs ≤ fuel
    → 0 < p
    → Chain m p bs
    → (m' : Mem) × (free_from fuel ps p m ≡ some (pos 0, m'))
      × Chain m' p (map (freed_if ps) bs)
      × SameOutside p (p + extent bs) m m'
unfolding extent
free_from_lem fuel ps p m [] f z h = absurd h
free_from_lem zero ps p m (b ∷ bs) f z h = absurd (omega arith)
free_from_lem (suc fuel) ps p m (b ∷ []) f z h =
    let (mp, valid, bound) = head_lem m p b [] h in
    let (here, other) = free_if_owned_lem ps p m b mp valid (omega arith) in
    let (t, s) = freed_if_shape ps b in
    (
      free_if_owned ps p m,
      free_from_end fuel ps p m b mp valid (omega arith) bound h.1,
      (here, t ∙ h.1, omega arith),
      λ x o. other x (omega arith),
    )
free_from_lem (suc fuel) ps p m (b ∷ c ∷ cs) f z h =
    let (mp, valid, bound) = head_lem m p b (c ∷ cs) h in
    let (here, other) = free_if_owned_lem ps p m b mp valid (omega arith) in
    let (t, s) = freed_if_shape ps b in
    let q = p + b.m_size + 1 in
    let m1 = free_if_owned ps p m in
    let tail = Chain-frame m m1 q (c ∷ cs) (λ x lo hi. other x (omega arith)) h.3 in
    let (m2, run, chain, same) =
      free_from_lem fuel ps q m1 (c ∷ cs) (omega arith) (omega arith) tail in
    (
      m2,
      free_from_more fuel ps p m b mp valid (omega arith) bound h.1 ∙ run,
      (
        same p (omega arith) ∙ here,
        t ∙ h.1,
        omega arith,
        subst (λ u. Chain m2 u (map (freed_if ps) (c ∷ cs))) (omega arith) chain,
      ),
      λ x o. same x (shifted x o) ∙ other x (omega arith),
    )
  where
    shifted :
        (x : ℕ)
        → (x < p) ⊎ (p + extent (b ∷ c ∷ cs) ≤ x)
        → (x < p + b.m_size + 1) ⊎ (p + b.m_size + 1 + extent (c ∷ cs) ≤ x)
    shifted x (inl lo) = inl (omega arith)
    shifted x (inr hi) = inr (omega arith)
