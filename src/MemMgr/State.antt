-- ===== src/MemMgr/State.antt =====
-- kernel/memmgr.c and hdr/mcb.h: memory control blocks in memory. A control block fills one
-- paragraph, so memory is a function from the segment of a paragraph to the control block that
-- its sixteen bytes hold; the three bytes `m_fill` are not used and left out.
use fdkernel.Common.{ℕ, ◌+◌, ◌%◌, ◌^◌, Bool, not, ◌&&◌, ◌||◌, List, ◌==◌, if◌then◌else◌, replicate}

pub record Mcb : Type 0 where
  pub m_type : ℕ
  pub m_psp : ℕ
  pub m_size : ℕ
  pub m_name : List ℕ

abbrev pub Mem : Type 0
Mem = ℕ → Mcb

abbrev pub write : Mem → ℕ → Mcb → Mem
write m p b q = if q == p then b else m q

-- The variables of the kernel that the memory manager reads and writes, with the memory.
pub record Kernel : Type 0 where
  pub mem : Mem
  pub first_mcb : ℕ
  pub uppermem_link : ℕ
  pub uppermem_root : ℕ
  pub mem_access_mode : ℕ
  pub cu_psp : ℕ

abbrev pub mcb_normal : ℕ
mcb_normal = 0x4d

abbrev pub mcb_last : ℕ
mcb_last = 0x5a

abbrev pub free_psp : ℕ
free_psp = 0

-- `mode` is a 16-bit `COUNT`, so LARGEST, which is -1, is the word 0xffff.
abbrev pub largest : ℕ
largest = 0xffff

abbrev pub first_fit : ℕ
first_fit = 0

abbrev pub best_fit : ℕ
best_fit = 1

abbrev pub last_fit : ℕ
last_fit = 2

abbrev pub first_fit_uo : ℕ
first_fit_uo = 0x40

abbrev pub best_fit_uo : ℕ
best_fit_uo = 0x41

abbrev pub last_fit_uo : ℕ
last_fit_uo = 0x42

abbrev pub first_fit_u : ℕ
first_fit_u = 0x80

abbrev pub best_fit_u : ℕ
best_fit_u = 0x81

abbrev pub last_fit_u : ℕ
last_fit_u = 0x82

abbrev pub seg_mod : ℕ
seg_mod = 2 ^ 16

-- `nxtMCBsize` and `nxtMCB`, with the wrap of a segment.
unfoldable pub next_mcb_size : ℕ → ℕ → ℕ
next_mcb_size p size = (p + size + 1) % seg_mod

unfoldable pub next_mcb : Mem → ℕ → ℕ
unfolding next_mcb_size
next_mcb m p = next_mcb_size p (m p).m_size

abbrev pub mcb_free : Mcb → Bool
mcb_free b = b.m_psp == free_psp

abbrev pub mcb_freeable : Mcb → Bool
mcb_freeable b = (b.m_type == mcb_normal) || (b.m_type == mcb_last)

abbrev pub mcb_valid : Mcb → Bool
mcb_valid b = not (b.m_size == 0xffff) && mcb_freeable b

abbrev pub blank_name : List ℕ
blank_name = replicate 8 0

-- Single stores through a pointer to the block at `p`.
abbrev pub set_type : Mem → ℕ → ℕ → Mem
set_type m p t = write m p (record (m p) { m_type = t })

abbrev pub set_size : Mem → ℕ → ℕ → Mem
set_size m p n = write m p (record (m p) { m_size = n })

abbrev pub set_psp : Mem → ℕ → ℕ → Mem
set_psp m p n = write m p (record (m p) { m_psp = n })
