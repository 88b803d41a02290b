-- ===== src/Crypto.antt =====
-- src/device/wifi/wifi_crypto.c: the primitives of WPA2, and what wifi_wpa.c makes of them.
pub mod Tables
pub mod Aes
pub mod Ccm
pub mod Unwrap
pub mod Sha1
pub mod Hmac
pub mod Wpa
mod Tests
