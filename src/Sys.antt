-- ===== src/Sys.antt =====
-- src/core/sys: processes, events and system calls.
pub mod Sched
pub mod Exec
pub mod Wakeup
pub mod Events
pub mod Registery
pub mod Tty
pub mod Steps
