-- ===== src/Dash.antt =====
-- The DASH part of the player: XML attributes, the MPD's segment information, and the segments.
pub mod Xml
pub mod Mpd
pub mod Template
pub mod Segments
pub mod SegmentList
pub mod SegmentTemplate
pub mod SegmentBase
pub mod Protection
pub mod Parsing
pub mod Channels
pub mod Frames
pub mod Representations
pub mod AdaptationSets
pub mod Variants
pub mod Periods
pub mod Timing
pub mod Manifest
pub mod Tests
