-- ===== src/Io.antt =====
-- Character I/O: uts/os/io.
pub mod Streams
