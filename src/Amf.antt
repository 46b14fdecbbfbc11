-- ===== src/Amf.antt =====
-- common/src/media/rtmp/amf_document.cpp and amf_document.h: AMF0 values and their wire format.
pub mod Value
pub mod Encode
pub mod Decode
pub mod Document
pub mod RoundTrip
pub mod Fuel
pub mod Object
pub mod Lookup
mod Tests
