-- ===== src/MemMgr.antt =====
-- kernel/memmgr.c: the memory manager.
pub mod State
pub mod Chain
pub mod Join
pub mod Alloc
pub mod Largest
pub mod Resize
pub mod Walk
pub mod Graft
mod Examples
