-- ===== src/Nalu.antt =====
-- common/src/media/bitstream/nalu and common/src/core/bit_reader.h: the bits of a NAL unit.
pub mod Emulation
pub mod Unescape
pub mod BitReader
pub mod ExpGolomb
pub mod ReadBits
pub mod Splitter
mod Tests
