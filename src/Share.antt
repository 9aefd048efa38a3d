-- ===== src/Share.antt =====
-- share/share.c: the resident part of SHARE, which the kernel calls through interrupt 2Fh.
pub mod State
pub mod Names
pub mod Modes
pub mod Open
pub mod Locks
pub mod Handler
pub mod Invariant
mod Examples
