-- ===== src/MemMgr/Largest.antt =====
-- kernel/memmgr.c: `DosMemLargest`.
use fdkernel.Common.{
  ℕ, ◌-◌, ◌/◌, ◌%◌, true, ltb, ◌==◌, if◌then◌else◌, Option, some, none, ℤ, pos, negsuc,
}
use fdkernel.MemMgr.State.{Kernel, largest}
use fdkernel.MemMgr.Alloc.{AllocResult, dos_mem_alloc}

-- `size` keeps its zero where `DosMemAlloc` stores nothing.
abbrev pub size_of : Option ℕ → ℕ
size_of none = 0
size_of (some n) = n

abbrev pub after_alloc : Kernel → AllocResult → Kernel
after_alloc k r = record k { mem = r.mem }

abbrev pub report : ℕ → Kernel → ℤ × ℕ × Kernel
report size k = (if size == 0 then negsuc 7 else pos 0, size, k)

-- The second search, for low memory, with bit 7 of the access mode cleared and set again.
unfoldable pub search_low : ℕ → Kernel → Option (ℤ × ℕ × Kernel)
search_low size k =
    elim (dos_mem_alloc 0xffff largest true
      (record k { mem_access_mode = k.mem_access_mode - 128 })) [
        | none ↦ none
        | some r ↦ some (
            report (if ltb size (size_of r.asize) then size_of r.asize else size) (after_alloc k r))
      ]

unfoldable pub dos_mem_largest : Kernel → Option (ℤ × ℕ × Kernel)
unfolding search_low
dos_mem_largest k = elim (dos_mem_alloc 0xffff largest true k) [
  | none ↦ none
  | some r ↦
      let size = size_of r.asize in
      let k' = after_alloc k r in
      if (k.mem_access_mode / 128) % 2 == 1 then search_low size k' else some (report size k')
]
