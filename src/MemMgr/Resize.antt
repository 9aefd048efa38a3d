-- ===== src/MemMgr/Resize.antt =====
-- kernel/memmgr.c: `DosMemFree` and `DosMemChange`.
pub mod Free
pub mod Change
pub mod Whole
use fdkernel.Common.{
  ℕ, ◌+◌, ◌-◌, ◌*◌, ◌%◌, Bool, true, false, not, ltb, ◌==◌, if◌then◌else◌, Option, some, none, ℤ,
  pos, negsuc,
}
use fdkernel.MemMgr.State.{
  Mcb, Mem, Kernel, mcb_normal, free_psp, seg_mod, next_mcb_size, mcb_valid, mcb_freeable,
  blank_name, write, set_type, set_size, set_psp,
}
use fdkernel.MemMgr.Join.{join_mcbs}
use fdkernel.MemMgr.Alloc.{chain_fuel}

abbrev pub released : Mcb → Mcb
released b = record b { m_psp = free_psp; m_name = blank_name }

unfoldable pub dos_mem_free : ℕ → Mem → ℤ × Mem
dos_mem_free para m =
    if para == 0
    then (negsuc 8, m)
    else if mcb_freeable (m para)
    then (pos 0, write m para (released (m para)))
    else (negsuc 8, m)

-- What `DosMemChange` returns and stores: its code, `*maxSize` if it is written, and the memory.
pub record ChangeResult : Type 0 where
  pub code : ℤ
  pub max_size : Option ℕ
  pub mem : Mem

abbrev pub changed : ℤ → Mem → ChangeResult
changed code m = record { code = code; max_size = none; mem = m }

-- The rest of the block at `p` behind `size` paragraphs becomes an unused block, before it is
-- joined with those that follow.
unfoldable pub cut_at : ℕ → ℕ → ℕ → Mem → Mem
cut_at p q size m =
    let m1 = set_size m q (((m p).m_size + 2 * seg_mod - size - 1) % seg_mod) in
    let m2 = set_type m1 q (m1 p).m_type in
    let m3 = set_size m2 p size in let m4 = set_type m3 p mcb_normal in write m4 q (released (m4 q))

unfoldable pub cut_off : ℕ → ℕ → Mem → Mem
cut_off p size m = cut_at p (next_mcb_size p size) size m

abbrev pub claim : ℕ → ℕ → Mem → ChangeResult
claim psp p m = changed (pos 0) (set_psp m p psp)

unfoldable pub after_cut : ℕ → ℕ → Option (ℤ × Mem) → Option ChangeResult
after_cut psp p none = none
after_cut psp p (some (pos c, m)) = some (claim psp p m)
after_cut psp p (some (negsuc e, m)) = some (changed (negsuc 6) m)

unfoldable pub shrink : ℕ → ℕ → ℕ → Mem → Option ChangeResult
unfolding after_cut
shrink psp p size m =
    if ltb size (m p).m_size
    then after_cut psp p (join_mcbs chain_fuel (next_mcb_size p size) (cut_off p size m))
    else some (claim psp p m)

unfoldable pub after_grow : ℕ → ℕ → ℕ → Bool → Option (ℤ × Mem) → Option ChangeResult
after_grow psp p size wants none = none
after_grow psp p size wants (some (negsuc e, m)) = some (changed (negsuc 6) m)
after_grow psp p size wants (some (pos c, m)) =
    if ltb (m p).m_size size
    then some
        (record { code = negsuc 7; max_size = if wants then some (m p).m_size else none; mem = m })
    else shrink psp p size m

-- `para` is the segment behind the control block.
unfoldable pub dos_mem_change : ℕ → ℕ → Bool → Kernel → Option ChangeResult
dos_mem_change para size wants k =
    let p = (para + seg_mod - 1) % seg_mod in
    if not (mcb_valid (k.mem p))
    then some (changed (negsuc 6) k.mem)
    else if ltb (k.mem p).m_size size
    then after_grow k.cu_psp p size wants (join_mcbs chain_fuel p k.mem)
    else shrink k.cu_psp p size k.mem
