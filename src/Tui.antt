-- ===== src/Tui.antt =====
-- crates/rustmail-tui: the state of the terminal client and what its events do to it.
pub mod Types
pub mod Selection
pub mod App
pub mod Preview
pub mod Live
pub mod Input
pub mod Dispatch
pub mod WellFormed
mod Tests
pub mod Replay
pub mod Fetches
pub mod Pump
