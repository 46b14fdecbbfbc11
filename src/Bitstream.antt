-- ===== src/Bitstream.antt =====
-- What reads and writes bits in common/src/core and common/src/media/bitstream.
mod Tests
pub mod BitWriter
pub mod Aac
pub mod Adts
pub mod Avc
pub mod Reading
pub mod H264
pub mod H265
pub mod Converter
