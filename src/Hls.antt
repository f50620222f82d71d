-- ===== src/Hls.antt =====
-- The HLS part of the player: the text of a playlist, and the manifest that it makes.
pub mod Tags
pub mod Playlist
pub mod Required
pub mod Codecs
pub mod Segments
pub mod Keys
pub mod Streams
pub mod Variants
pub mod Period
pub mod Manifest
pub mod TransportStream
pub mod Tests
