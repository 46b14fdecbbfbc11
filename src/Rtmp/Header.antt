-- ===== src/Rtmp/Header.antt =====
-- common/src/media/rtmp/rtmp_datastructure.h: the header of an RTMP chunk, and a whole message.
-- Unsigned fields hold their value; the struct is packed, so `sizeof(completed)` is 21.
use media_engine.Base.{ℕ, Bool, false, [], ◌+◌, ◌∷◌, if◌then◌else◌}
use media_engine.Base.Bytes.{Bytes}

pub data ChunkType : Type 0 where
  t0 t1 t2 t3 : ChunkType

-- The bits of an `RtmpChunkType` value.
abbrev pub type_bits : ChunkType → ℕ
type_bits t0 = 0x00
type_bits t1 = 0x40
type_bits t2 = 0x80
type_bits t3 = 0xc0

-- `RtmpChunkMsgSize`, which is also the packed size of each member of the header's union.
abbrev pub msg_size : ChunkType → ℕ
msg_size t0 = 11
msg_size t1 = 7
msg_size t2 = 3
msg_size t3 = 0

-- The union of the four message headers. Its members lay their common fields over the same bytes,
-- so one record with the fields of `type_0` holds each of them: `timestamp` is also
-- `timestamp_delta`. `timestamp` and `length` are bit fields of 24 bits.
pub record MessageHeader : Type 0 where
  pub timestamp : ℕ
  pub length : ℕ
  pub type_id : ℕ
  pub stream_id : ℕ

-- The accumulated header. `timestamp` is an int64_t that starts at 0 or above and only grows.
pub record Completed : Type 0 where
  pub timestamp_delta : ℕ
  pub timestamp : ℕ
  pub length : ℕ
  pub type_id : ℕ
  pub stream_id : ℕ

pub record ChunkHeader : Type 0 where
  pub is_extended : Bool
  pub header_size : ℕ
  pub basic_header_size : ℕ
  pub message_header_size : ℕ
  pub payload_size : ℕ
  pub expected_type_3_header : Bytes
  pub expected_payload_size : ℕ
  pub format_type : ChunkType
  pub stream_id : ℕ
  pub extended_timestamp : ℕ
  pub completed : Completed
  pub header : MessageHeader

abbrev pub zero_header : MessageHeader
zero_header = record { timestamp = 0; length = 0; type_id = 0; stream_id = 0 }

abbrev pub zero_completed : Completed
zero_completed = record {
  timestamp_delta = 0;
  timestamp = 0;
  length = 0;
  type_id = 0;
  stream_id = 0;
}

-- A header as its constructor leaves it. `basic_header` has no initialiser and is written before
-- it is read.
abbrev pub new_chunk_header : ChunkHeader
new_chunk_header = record {
  is_extended = false;
  header_size = 0;
  basic_header_size = 0;
  message_header_size = 0;
  payload_size = 0;
  expected_type_3_header = 0 ∷ 0 ∷ 0 ∷ 0 ∷ [];
  expected_payload_size = 0;
  format_type = t0;
  stream_id = 0;
  extended_timestamp = 0;
  completed = zero_completed;
  header = zero_header;
}

-- The size of the extended timestamp on the wire.
abbrev pub extended_size : Bool → ℕ
extended_size e = if e then 4 else 0

abbrev pub recalculate_header_size : ChunkHeader → ChunkHeader
recalculate_header_size h = record h {
  header_size = h.basic_header_size + h.message_header_size + extended_size h.is_extended;
}

pub record Message : Type 0 where
  pub header : ChunkHeader
  pub payload : Bytes
