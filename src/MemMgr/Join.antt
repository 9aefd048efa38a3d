-- ===== src/MemMgr/Join.antt =====
-- kernel/memmgr.c: `joinMCBs`.
pub mod Refine
use fdkernel.Common.{
  ℕ, zero, suc, ◌+◌, ◌%◌, Bool, not, ◌==◌, if◌then◌else◌, Option, some, none, ℤ, pos, negsuc,
}
use fdkernel.MemMgr.State.{
  Mcb, Mem, mcb_normal, seg_mod, next_mcb, mcb_free, mcb_valid, set_type, set_size,
}

-- The body of the loop after its tests: the block at `q` becomes part of the one at `p`, and is
-- marked as a fake.
abbrev pub absorb : Mem → ℕ → ℕ → Mem
absorb m p q =
    let m1 = set_type m p (m q).m_type in
    let m2 = set_size m1 p (((m1 p).m_size + (m1 q).m_size + 1) % seg_mod) in set_size m2 q 0xffff

-- The loop, on fuel: `none` is a chain that does not end.
unfoldable pub join_mcbs : ℕ → ℕ → Mem → Option (ℤ × Mem)
join_mcbs zero p m = none
join_mcbs (suc fuel) p m =
    let q = next_mcb m p in
    let rest = join_mcbs fuel p (absorb m p q) in
    if not ((m p).m_type == mcb_normal)
    then some (pos 0, m)
    else if not (mcb_free (m q))
    then some (pos 0, m)
    else if not (mcb_valid (m q))
    then some (negsuc 6, m)
    else rest
