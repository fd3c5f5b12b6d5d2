-- ===== src/Net/Tcp.antt =====
-- uts/os/net/tcp.c: TCP as a STREAMS module, one connection at a time. A segment that is sent is put
-- on a list and does not come back within the call, as it would over lo0.
pub mod Types
pub mod Rtt
pub mod Mss
pub mod Options
pub mod Output
pub mod Send
pub mod Ack
pub mod Input
pub mod Requests
pub mod Timer
pub mod Backlog
pub mod Steps
pub mod States
pub mod Closing
pub mod Window
pub mod Delivery
pub mod Sound
pub mod Backoff
mod Tests
