-- ===== src/Clock.antt =====
-- kernel/systime.c and kernel/sysclk.c: the date, the time, and the clock driver below them.
pub mod Calendar
pub mod Driver
pub mod SysTime
mod Examples
