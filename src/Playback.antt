-- ===== src/Playback.antt =====
-- What watches the playhead: the buffered ranges, stalls, gaps, the play rate and the regions.
pub mod Ranges
pub mod Buffering
pub mod Stall
pub mod Gap
pub mod Rate
pub mod Regions
pub mod Periods
mod Tests
