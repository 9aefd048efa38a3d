-- ===== src/Fat.antt =====
-- The FAT table of a drive: kernel/fattab.c.
pub mod State
pub mod FreeCount
pub mod Link
pub mod Entry
pub mod Packed
pub mod Places
pub mod Twelve
pub mod Table
pub mod RoundTrip
pub mod Chain
pub mod Examples
