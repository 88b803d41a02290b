-- ===== src/Tcp.antt =====
-- src/device/net/tcp.c: one connection at a time, served by one listener.
pub mod Seq
pub mod Ring
pub mod State
pub mod Receive
pub mod Calls
pub mod Fifo
pub mod Transfers
pub mod Stream
pub mod Invariant
pub mod Steps
pub mod History
mod Tests
