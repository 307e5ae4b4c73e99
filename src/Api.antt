-- ===== src/Api.antt =====
-- crates/rustmail-api: who may open a connection, and the handlers that list and change messages.
pub mod Origin
pub mod Host
pub mod Messages
pub mod Changes
pub mod Responses
pub mod Headers
pub mod Asserts
mod Tests
