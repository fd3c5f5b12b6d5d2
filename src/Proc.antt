-- ===== src/Proc.antt =====
-- Threads and processes: uts/os/proc.
pub mod Signal
pub mod Waitq
