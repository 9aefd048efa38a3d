-- ===== src/MemMgr/Examples.antt =====
-- kernel/memmgr.c: runs on a chain of four blocks, and the theorems at it.
use fdkernel.Common.{
  ℕ, ◌≡◌, refl, true, List, [], ◌∷◌, arith, ◌==◌, ◌↔◌, if◌then◌else◌, some, none, pos,
}
use fdkernel.MemMgr.State.{Mcb, Mem, Kernel, blank_name}
use fdkernel.MemMgr.Chain.{Chain, extent, unused, merge, SameOutside}
use fdkernel.MemMgr.Join.{join_mcbs}
use fdkernel.MemMgr.Join.Refine.{join_mcbs-merge}
use fdkernel.MemMgr.Resize.{dos_mem_free, dos_mem_change}
use fdkernel.MemMgr.Resize.Free.{dos_mem_free-join_mcbs}
use fdkernel.MemMgr.Resize.Change.{shrink_blocks}
use fdkernel.MemMgr.Resize.Whole.{change_blocks, dos_mem_change_lem, merged, unmerged}
use fdkernel.MemMgr.Alloc.{chain_fuel}
use fdkernel.MemMgr.Walk.{dos_mem_check, free_from}
use fdkernel.MemMgr.Walk.Whole.{Meets, free_from_lem, dos_mem_check_iff}

abbrev block : ℕ → ℕ → ℕ → Mcb
block type psp size = record { m_type = type; m_psp = psp; m_size = size; m_name = blank_name }

-- Used, unused, unused, used and last.
abbrev b0 : Mcb
b0 = block 0x4d 8 16

abbrev b1 : Mcb
b1 = block 0x4d 0 32

abbrev b2 : Mcb
b2 = block 0x4d 0 64

abbrev b3 : Mcb
b3 = block 0x5a 9 100

abbrev mem : Mem
mem p =
    if p == 512
    then b0
    else if p == 529
    then b1
    else if p == 562
    then b2
    else if p == 627
    then b3
    else block 0 0 0

abbrev blocks : List Mcb
blocks = b0 ∷ b1 ∷ b2 ∷ b3 ∷ []

abbrev kernel : Kernel
kernel = record {
  mem = mem;
  first_mcb = 512;
  uppermem_link = 0;
  uppermem_root = 0xffff;
  mem_access_mode = 0;
  cu_psp = 10;
}

mem-Chain : Chain mem 512 blocks
mem-Chain = (
  refl,
  refl,
  omega arith,
  (refl, refl, omega arith, (refl, refl, omega arith, (refl, refl, omega arith))),
)

tail-Chain : Chain mem 529 (b1 ∷ b2 ∷ b3 ∷ [])
tail-Chain = (refl, refl, omega arith, (refl, refl, omega arith, (refl, refl, omega arith)))

join_mcbs-merge_example :
    (m' : Mem) × (join_mcbs 3 529 mem ≡ some (pos 0, m'))
    × Chain m' 529 (block 0x4d 0 97 ∷ b3 ∷ [])
    × SameOutside 529 728 mem m'
unfolding merge extent
join_mcbs-merge_example = join_mcbs-merge 3 529 mem b1 (b2 ∷ b3 ∷ []) (omega arith) tail-Chain

dos_mem_check_iff_example :
    (dos_mem_check kernel ≡ some (pos 0)) ↔ Meets kernel.mem kernel.first_mcb chain_fuel (pos 0)
dos_mem_check_iff_example = dos_mem_check_iff kernel (pos 0)

free_from_lem_example :
    (m' : Mem) × (free_from 4 9 512 mem ≡ some (pos 0, m'))
    × Chain m' 512 (b0 ∷ b1 ∷ b2 ∷ unused b3 ∷ [])
    × SameOutside 512 728 mem m'
unfolding extent
free_from_lem_example = free_from_lem 4 9 512 mem blocks (omega arith) (omega arith) mem-Chain

dos_mem_free-join_mcbs_example :
    (m1 : Mem) × (m2 : Mem) × (m3 : Mem) × (dos_mem_free 529 mem ≡ (pos 0, m1))
    × (dos_mem_free 562 m1 ≡ (pos 0, m2))
    × (join_mcbs chain_fuel 529 m2 ≡ some (pos 0, m3))
    × Chain m3 512 (b0 ∷ block 0x4d 0 97 ∷ b3 ∷ [])
    × SameOutside 529 728 mem m3
unfolding extent merge
dos_mem_free-join_mcbs_example =
    dos_mem_free-join_mcbs 512 mem (b0 ∷ []) b1 b2 (b3 ∷ []) (omega arith) mem-Chain

-- Block 0 cannot grow to 200 paragraphs.
dos_mem_change_lem_example :
    let spec = change_blocks 10 200 true b0 (b1 ∷ b2 ∷ b3 ∷ []) in
    (m' : Mem) × (dos_mem_change 513 200 true kernel
      ≡ some (record { code = spec.code; max_size = spec.max_size; mem = m' }))
    × Chain m' 512 spec.blocks
unfolding extent
dos_mem_change_lem_example =
    dos_mem_change_lem 513 200 true kernel [] b0 (b1 ∷ b2 ∷ b3 ∷ []) mem-Chain refl

change_code : change_blocks 10 40 true b0 (b1 ∷ b2 ∷ b3 ∷ []) ≡ record {
  code = pos 0;
  max_size = none;
  blocks = block 0x4d 10 40 ∷ block 0x4d 0 73 ∷ b3 ∷ [];
}
unfolding change_blocks shrink_blocks merge merged unmerged
change_code = refl
