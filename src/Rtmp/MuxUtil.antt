-- ===== src/Rtmp/MuxUtil.antt =====
-- common/src/media/rtmp/rtmp_mux_util.cpp: big-endian numbers, and the chunks that carry a message.
-- A function that writes at a pointer and returns how much it wrote is two definitions here: the
-- bytes written, in order, and the count returned.
pub mod Sizes
use media_engine.Base.{
  ℕ, zero, suc, bit_and, bit_or, Bool, not, Option, none, some, [], ltb, leb, length, take, drop,
  ◌+◌, ◌-◌, ◌*◌, ◌/◌, ◌%◌, ◌||◌, ◌∷◌, ◌++◌, ◌==◌, if◌then◌else◌,
}
use media_engine.Base.Bytes.{Bytes}
use media_engine.Rtmp.Header.{
  ChunkType, t0, t1, t2, t3, type_bits, msg_size, ChunkHeader, MessageHeader,
}

-- `ReadInt8` to `ReadInt32` at a pointer; `none` is a read past the end of the data.
pub read_int8 : Bytes → Option ℕ
read_int8 (a ∷ _) = some a
read_int8 _ = none

pub read_int16 : Bytes → Option ℕ
read_int16 (a ∷ b ∷ _) = some (a * 256 + b)
read_int16 _ = none

pub read_int24 : Bytes → Option ℕ
read_int24 (a ∷ b ∷ c ∷ _) = some (a * 65536 + b * 256 + c)
read_int24 _ = none

unfoldable pub read_int32 : Bytes → Option ℕ
read_int32 (a ∷ b ∷ c ∷ d ∷ _) = some (a * 16777216 + b * 65536 + c * 256 + d)
read_int32 _ = none

-- `memcpy` of four bytes on a little-endian host.
pub read_int32_le : Bytes → Option ℕ
read_int32_le (a ∷ b ∷ c ∷ d ∷ _) = some (a + b * 256 + c * 65536 + d * 16777216)
read_int32_le _ = none

-- The values that the writers are given stand for their bit pattern.
unfoldable pub write_int8 : ℕ → Bytes
write_int8 v = (v % 256) ∷ []

unfoldable pub write_int16 : ℕ → Bytes
write_int16 v = (v / 256 % 256) ∷ (v % 256) ∷ []

unfoldable pub write_int24 : ℕ → Bytes
write_int24 v = (v / 65536 % 256) ∷ (v / 256 % 256) ∷ (v % 256) ∷ []

unfoldable pub write_int32 : ℕ → Bytes
write_int32 v = (v / 16777216 % 256) ∷ (v / 65536 % 256) ∷ (v / 256 % 256) ∷ (v % 256) ∷ []

unfoldable pub write_int32_le : ℕ → Bytes
write_int32_le v = (v % 256) ∷ (v / 256 % 256) ∷ (v / 65536 % 256) ∷ (v / 16777216 % 256) ∷ []

-- `RTMP_EXTEND_TIMESTAMP`, `RTMP_EXTEND_TIMESTAMP_SIZE` and `RTMP_PACKET_HEADER_SIZE_MAX`.
abbrev pub extend_timestamp : ℕ
extend_timestamp = 0x00ff_ffff

abbrev pub extend_timestamp_size : ℕ
extend_timestamp_size = 4

abbrev pub packet_header_size_max : ℕ
packet_header_size_max = 3 + (11 + 4)

unfoldable pub get_basic_header_size_by_raw_data : ℕ → ℕ
get_basic_header_size_by_raw_data b =
    let id = bit_and b 0x3f in if id == 0 then 2 else if id == 1 then 3 else 1

unfoldable pub get_basic_header_size_by_chunk_stream_id : ℕ → ℕ
get_basic_header_size_by_chunk_stream_id id =
    if leb (64 + 256) id then 3 else if leb 64 id then 2 else 1

-- The size of a whole header in `raw`, or 0 while not all of it has arrived.
-- `none` is the read of a timestamp past the end of `raw`.
unfoldable pub get_chunk_header_size : ChunkType → ℕ → Bytes → Option ℕ
unfolding read_int24
get_chunk_header_size t3 basic raw =
    some (if ltb (length raw) (basic + msg_size t3) then 0 else basic + msg_size t3)
get_chunk_header_size type basic raw =
    let size = basic + msg_size type in
    if ltb (length raw) size then some 0 else elim (read_int24 (drop basic raw)) [
      | none ↦ none
      | some ts ↦ some (
          if ts == extend_timestamp
          then (if ltb (length raw) (size + extend_timestamp_size)
              then 0
              else size + extend_timestamp_size)
          else size)
    ]

-- The first byte of a basic header with the chunk type put in.
unfoldable pub get_chunk_basic_header_raw : ChunkType → ℕ → Bytes
get_chunk_basic_header_raw type id =
    if leb (64 + 256) id
    then bit_or 1 (bit_and (type_bits type) 0xc0) ∷ ((id - 64) % 256) ∷ ((id - 64) / 256 % 256) ∷ []
    else if leb 64 id
    then bit_or 0 (bit_and (type_bits type) 0xc0) ∷ ((id - 64) % 256) ∷ []
    else bit_or (id % 64) (bit_and (type_bits type) 0xc0) ∷ []

unfoldable pub basic_header_raw_size : ℕ → ℕ
basic_header_raw_size id = if leb (64 + 256) id then 3 else if leb 64 id then 2 else 1

-- `GetChunkHeaderRaw`: the basic header, then the message header.
abbrev timestamp_raw : Bool → ℕ → Bytes
timestamp_raw extend ts = if not extend then write_int24 ts else write_int24 extend_timestamp

abbrev extended_raw : Bool → ℕ → Bytes
extended_raw extend ts = if extend then write_int32 ts else []

unfoldable pub message_header_raw : ChunkType → MessageHeader → Bool → Bytes
unfolding write_int24 write_int32 write_int32_le
message_header_raw t0 m extend =
    timestamp_raw extend m.timestamp
    ++ (write_int24 m.length
        ++ ((m.type_id % 256) ∷ (write_int32_le m.stream_id ++ extended_raw extend m.timestamp)))
message_header_raw t1 m extend =
    timestamp_raw extend m.timestamp
    ++ (write_int24 m.length ++ ((m.type_id % 256) ∷ extended_raw extend m.timestamp))
message_header_raw t2 m extend = timestamp_raw extend m.timestamp ++ extended_raw extend m.timestamp
message_header_raw t3 m extend = []

unfoldable pub message_header_raw_size : ChunkType → Bool → ℕ
message_header_raw_size t3 extend = 0
message_header_raw_size type extend = msg_size type + (if extend then extend_timestamp_size else 0)

unfoldable pub get_chunk_header_raw : ChunkHeader → Bool → Bytes
get_chunk_header_raw h extend =
    get_chunk_basic_header_raw h.format_type h.stream_id
    ++ message_header_raw h.format_type h.header extend

unfoldable pub chunk_header_raw_size : ChunkHeader → Bool → ℕ
chunk_header_raw_size h extend =
    basic_header_raw_size h.stream_id + message_header_raw_size h.format_type extend

-- `GetChunkDataRawSize`
unfoldable pub get_chunk_data_raw_size : ℕ → ℕ → ℕ → Bool → ℕ
get_chunk_data_raw_size chunk_size id chunk_data_size extend =
    if chunk_size == 0 || chunk_data_size == 0
    then 0
    else chunk_data_size
      + (chunk_data_size - 1)
        / chunk_size
        * (get_basic_header_size_by_chunk_stream_id id
            + (if extend then extend_timestamp_size else 0))

-- What stands before each block but the first.
unfoldable pub block_separator : ℕ → Bool → ℕ → Bytes
unfolding write_int32
block_separator id extend time =
    get_chunk_basic_header_raw t3 id ++ (if extend then write_int32 time else [])

-- The rounds of `GetChunkDataRaw` after the first; `left` is the data behind `read_data_size`.
unfoldable pub later_blocks : ℕ → ℕ → Bytes → Bytes → Bytes
later_blocks zero chunk_size separator left = []
later_blocks (suc rounds) chunk_size separator left =
    let size = if ltb chunk_size (length left) then chunk_size else length left in
    separator ++ (take size left ++ later_blocks rounds chunk_size separator (drop size left))

-- `GetChunkDataRaw`: block, type 3 header, block, ...
unfoldable pub get_chunk_data_raw : ℕ → ℕ → Bytes → Bool → ℕ → Bytes
get_chunk_data_raw chunk_size id chunk_data extend time =
    if chunk_size == 0 || length chunk_data == 0
    then []
    else (let size = if ltb chunk_size (length chunk_data) then chunk_size else length chunk_data in
        take size chunk_data
        ++ later_blocks ((length chunk_data - 1) / chunk_size) chunk_size
            (block_separator id extend time) (drop size chunk_data))
