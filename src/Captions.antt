-- ===== src/Captions.antt =====
-- The text part of the player: cues, the parser of WebVTT, what is buffered, and what is displayed.
pub mod Cue
pub mod Settings
pub mod Vtt
pub mod Regions
pub mod Engine
pub mod Displayer
pub mod Tests
