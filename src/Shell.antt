-- ===== src/Shell.antt =====
-- Commands of the shell of kernel/main.c.
pub mod Calendar
mod Tests
