-- ===== src/Config.antt =====
-- The configuration file: kernel/config.c.
pub mod Words
pub mod Numbers
pub mod Settings
pub mod RoundTrip
pub mod Examples
