-- ===== src/Clusters.antt =====
-- The chains of clusters of kernel/fatfs.c, over the FAT table of a drive.
pub mod Chain
pub mod Walk
pub mod Laws
pub mod Extend
pub mod Follow
pub mod Walking
pub mod Mapping
pub mod Wipe
pub mod Twelve
pub mod Examples
