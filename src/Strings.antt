-- ===== src/Strings.antt =====
-- The string routines of kernel/strings.c.
pub mod Routines
pub mod Laws
pub mod Examples
