-- ===== src/MemMgr/Walk.antt =====
-- kernel/memmgr.c: `DosMemCheck`, `FreeProcessMem` and `DosUmbLink`, which walk the whole chain, and
-- `adjust_far`.
pub mod Whole
use fdkernel.Common.{
  ℕ, zero, suc, ◌+◌, ◌/◌, ◌%◌, Bool, true, false, not, ◌&&◌, ltb, ◌==◌, if◌then◌else◌, Option, some,
  none, ℤ, pos, negsuc,
}
use fdkernel.MemMgr.State.{
  Mcb, Mem, Kernel, mcb_normal, mcb_last, seg_mod, next_mcb, mcb_valid, set_type,
}
use fdkernel.MemMgr.Alloc.{chain_fuel}
use fdkernel.MemMgr.Resize.{dos_mem_free}

-- The messages on a destroyed chain are left out.
unfoldable pub check_from : ℕ → ℕ → Mem → Option ℤ
check_from zero p m = none
check_from (suc fuel) p m =
    let rest = check_from fuel (next_mcb m p) m in
    if (m p).m_type == mcb_last
    then some (pos 0)
    else if (m p).m_type == mcb_normal
    then rest
    else some (negsuc 6)

unfoldable pub dos_mem_check : Kernel → Option ℤ
unfolding check_from
dos_mem_check k = check_from chain_fuel k.first_mcb k.mem

abbrev pub free_if_owned : ℕ → ℕ → Mem → Mem
free_if_owned ps p m = if (m p).m_psp == ps then (dos_mem_free p m).1 else m

unfoldable pub free_from : ℕ → ℕ → ℕ → Mem → Option (ℤ × Mem)
free_from zero ps p m = none
free_from (suc fuel) ps p m =
    let m' = free_if_owned ps p m in
    let rest = free_from fuel ps (next_mcb m' p) m' in
    if not (mcb_valid (m p))
    then some (negsuc 6, m)
    else if (m' p).m_type == mcb_last
    then some (pos 0, m')
    else rest

-- The walk of `DosUmbLink`: the last block before the one at `uppermem_root`, that block, and
-- whether the walk was given up at an invalid block. `q` is not set if the chain begins at
-- `uppermem_root` or with its last block.
pub data LinkWalk : Type 0 where
  gave_up : LinkWalk
  reached : Option ℕ → ℕ → LinkWalk

unfoldable pub link_walk : ℕ → ℕ → Option ℕ → ℕ → Mem → Option LinkWalk
link_walk zero root q p m = none
link_walk (suc fuel) root q p m =
    let rest = link_walk fuel root (some p) (next_mcb m p) m in
    if not (p == root) && not ((m p).m_type == mcb_last)
    then (if mcb_valid (m p) then rest else some LinkWalk.gave_up)
    else some (LinkWalk.reached q p)

-- `q->m_type = MCB_LAST`; a store through a `q` that is not set is left out.
abbrev pub unlink : ℕ → Option ℕ → ℕ → Mem → Mem
unlink root none p m = m
unlink root (some q) p m =
    if ((m q).m_type == mcb_normal) && (p == root) then set_type m q mcb_last else m

unfoldable pub relink : ℕ → Kernel → LinkWalk → Kernel
relink n k LinkWalk.gave_up = k
relink n k (LinkWalk.reached q p) =
    if n == 0
    then record k { mem = unlink k.uppermem_root q p k.mem; uppermem_link = n }
    else if (k.mem p).m_type == mcb_last
    then record k { mem = set_type k.mem p mcb_normal; uppermem_link = n }
    else k

abbrev pub and_relink : ℕ → Kernel → Option LinkWalk → Option Kernel
and_relink n k none = none
and_relink n k (some w) = some (relink n k w)

unfoldable pub dos_umb_link : ℕ → Kernel → Option Kernel
unfolding link_walk relink
dos_umb_link n k =
    if k.uppermem_root == 0xffff
    then some k
    else if ltb 1 n
    then some k
    else if k.uppermem_link % 2 == n
    then some k
    else and_relink n k (link_walk chain_fuel k.uppermem_root none k.first_mcb k.mem)

-- The walk of `FreeProcessMem` and the restored link; an error leaves the upper memory linked.
abbrev pub after_free : ℕ → Kernel → Option (ℤ × Mem) → Option (ℤ × Kernel)
after_free old k none = none
after_free old k (some (negsuc e, m)) = some (negsuc e, record k { mem = m })
after_free old k (some (pos c, m)) = elim (dos_umb_link old (record k { mem = m })) [
  | none ↦ none
  | some k' ↦ some (pos 0, k')
]

unfoldable pub free_process_mem : ℕ → Kernel → Option (ℤ × Kernel)
unfolding free_from
free_process_mem ps k = elim (dos_umb_link 1 k) [
  | none ↦ none
  | some linked ↦
      after_free (k.uppermem_link % 2) linked (free_from chain_fuel ps linked.first_mcb linked.mem)
]

-- A far pointer as segment and offset; built for the 8086, where segment 0 is not special.
unfoldable pub adjust_far : ℕ → ℕ → ℕ × ℕ
adjust_far seg ofs = if seg == 0xffff then (seg, ofs) else ((seg + ofs / 16) % seg_mod, ofs % 16)
