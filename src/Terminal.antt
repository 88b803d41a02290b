-- ===== src/Terminal.antt =====
-- src/app/term: Terminal.Output what the session writes, Terminal.Line how it reads its arguments,
-- Terminal.Session the handling of keys.
pub mod Output
pub mod Line
pub mod Session
mod Tests
