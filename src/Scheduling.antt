-- ===== src/Scheduling.antt =====
-- The scheduler simulator of assigned-project-scheduling/scheduler.c and scheduler.h.
pub mod Jobs
pub mod Policies
pub mod Stats
pub mod Run
pub mod Main
mod Tests
