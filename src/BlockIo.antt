-- ===== src/BlockIo.antt =====
-- The block cache and the transfer of blocks: kernel/blockio.c.
pub mod Transfer
pub mod Device
pub mod Cache
pub mod Ring
pub mod Coherence
pub mod Fetch
pub mod Miss
pub mod GetBlock
pub mod Sync
pub mod Examples
