-- ===== src/Files.antt =====
-- The file system of assigned-project-files/solution: disk.c and goatfs.c.
pub mod Disk
pub mod Inodes
pub mod Bitmaps
pub mod Mounting
pub mod Operations
pub mod Transfer
pub mod Display
mod Tests
