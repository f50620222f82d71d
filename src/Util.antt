-- ===== src/Util.antt =====
-- The player's utilities: its statistics, its errors and its retries.
pub mod History
pub mod Errors
pub mod Backoff
pub mod MultiMap
pub mod Log
pub mod Timer
pub mod Events
pub mod Arrays
mod Tests
