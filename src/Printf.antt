-- ===== src/Printf.antt =====
-- Formatted output: kernel/prf.c.
pub mod Numbers
pub mod Format
pub mod Digits
pub mod Laws
pub mod Scan
pub mod Examples
