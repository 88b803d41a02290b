-- ===== src/Net.antt =====
-- src/device/net: IPv4, ARP, UDP, ICMP and DNS.
pub mod Checksum
pub mod Slots
pub mod State
pub mod Arp
pub mod Output
pub mod Udp
pub mod Icmp
pub mod Input
pub mod Talk
mod Tests
