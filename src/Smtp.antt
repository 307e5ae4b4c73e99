-- ===== src/Smtp.antt =====
-- crates/rustmail-smtp: the capture server's sessions.
pub mod Stream
pub mod Data
pub mod Command
pub mod Session
pub mod Handle
mod Tests
