-- ===== src/Compress.antt =====
-- Run-length encoding: the utilities wzip and wunzip, the serial wzip of the concurrency project,
-- and the threaded wpzip.
pub mod Runs
pub mod Chunks
pub mod Wzip
pub mod Wunzip
pub mod SerialWzip
pub mod Wpzip
pub mod WpzipUnoptimized
mod Tests
