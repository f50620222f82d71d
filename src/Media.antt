-- ===== src/Media.antt =====
-- The media side of the player: what it knows of the presentation's segments and times.
pub mod SegmentIndex
pub mod Timeline
mod Tests
