-- ===== src/Runtime.antt =====
-- src/lib: the routines that stand for the C library.
pub mod Division
pub mod Itoa
pub mod Memory
pub mod Text
mod Tests
