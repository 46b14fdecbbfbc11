-- ===== src/Rtmp.antt =====
-- The RTMP protocol layer, common/src/media/rtmp.
pub mod Header
pub mod MuxUtil
pub mod ChunkParser
pub mod ImportChunk
pub mod ExportChunk
pub mod Wire
pub mod Handshake
mod Tests
