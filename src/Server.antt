-- ===== src/Server.antt =====
-- crates/rustmail-server: the path of a captured message from the SMTP sessions to the store, and
-- the retention sweeps that remove it.
pub mod Transactions
pub mod Batch
pub mod Retention
mod Tests
