-- ===== src/Fs.antt =====
-- The file systems: uts/os/fs.
pub mod Kfs
