-- ===== src/Core.antt =====
-- The kernel's core: uts/os/core.
pub mod Pmm
pub mod Kmem
pub mod Uaccess
