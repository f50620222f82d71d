-- ===== src/Streaming.antt =====
-- Class `StreamingEngine`: which segments are fetched, and when a buffer is cleared.
pub mod State
pub mod Needed
pub mod Update
pub mod Fetch
pub mod Switch
pub mod Setup
pub mod Transition
pub mod Events
pub mod Calm
mod Tests
