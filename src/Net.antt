-- ===== src/Net.antt =====
-- The network stack: uts/os/net.
pub mod Slip
pub mod Tcp
pub mod Arp
