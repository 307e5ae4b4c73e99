-- ===== src/Storage.antt =====
-- The storage layer: crates/rustmail-storage/src.
pub mod Schema
pub mod Error
pub mod Exec
pub mod Content
pub mod Locator
pub mod Insert
pub mod WellFormed
pub mod Refines
pub mod Delete
pub mod Read
pub mod Attachments
pub mod Tests
pub mod Update
pub mod Like
