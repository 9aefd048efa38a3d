-- ===== src/Handles.antt =====
-- File handles and the system file table: kernel/dosfns.c.
pub mod State
pub mod Calls
pub mod Open
pub mod Table
pub mod Counts
pub mod Live
pub mod Opened
pub mod Opening
pub mod Step
pub mod DupClose
pub mod Examples
