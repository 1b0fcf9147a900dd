-- ===== src/Shell.antt =====
-- The shell of assigned-project-processes/wshell.c.
pub mod Text
pub mod History
pub mod Jobs
pub mod Builtins
pub mod Lines
mod Tests
