-- ===== src/Fcb.antt =====
-- File control blocks and names of eight and three bytes: kernel/fcbfns.c, with what it uses of
-- kernel/nls.c and kernel/fatdir.c. Built with DBCS.
pub mod Dbcs
pub mod Name83
pub mod Parse
pub mod Records
pub mod Fields
pub mod RoundTrip
pub mod Transfer
pub mod Examples
