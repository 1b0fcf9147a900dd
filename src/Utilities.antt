-- ===== src/Utilities.antt =====
-- The utilities that print text: wcat and wgrep.
pub mod Wcat
pub mod Wgrep
mod Tests
