-- ===== src/Kernel.antt =====
-- The kernel proper: processes and messages, the scheduler and message passing (kernel/proc.c), and
-- the terminals (kernel/tty.c).
pub mod Types
pub mod Sched
pub mod Ipc
pub mod Clock
pub mod Tty
pub mod Keyboard
pub mod Protect
