-- ===== src/Memory.antt =====
-- The arena allocator of assigned-project-memory/goatmalloc.c.
pub mod Heap
pub mod Arena
pub mod Chain
pub mod FirstFit
mod Tests
