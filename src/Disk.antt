-- ===== src/Disk.antt =====
-- Disks: kernel/dsk.c and the sizes of a new FAT in kernel/initdisk.c.
pub mod Geometry
pub mod Sizes
pub mod Tries
pub mod Fits
pub mod Transfer
pub mod Calls
pub mod Sectors
pub mod Moved
pub mod Whole
pub mod Examples
