-- ===== src/Telnet.antt =====
-- src/device/net/telnet.c: telnet over a connection, with its commands and option negotiation.
pub mod Options
pub mod Process
pub mod Write
pub mod Escapes
pub mod Negotiation
mod Tests
