-- ===== src/Net.antt =====
-- The network part of the player.
pub mod Requests
pub mod DataUri
pub mod Tests
