-- ===== src/Io/Streams.antt =====
-- uts/os/io/streams.c and include/kappara/io/streams.h: the core of the STREAMS framework.
pub mod Queue
