-- ===== src/Binary.antt =====
-- The binary formats: bytes and their encodings, a reader of bytes, the boxes of MP4 and the elements
-- of WebM.
pub mod Bytes
pub mod Utf16
pub mod Reader
pub mod Mp4
pub mod Sidx
pub mod Pssh
pub mod Ebml
pub mod Webm
pub mod Samples
mod Tests
