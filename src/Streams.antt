-- ===== src/Streams.antt =====
-- What the player knows of streams and variants: languages, codecs, restrictions, tracks, and which
-- variant it plays.
pub mod Locale
pub mod Types
pub mod Codecs
pub mod Restrictions
pub mod Tracks
pub mod Selection
pub mod Adaptation
pub mod Bandwidth
pub mod Abr
pub mod Drm
mod Tests
