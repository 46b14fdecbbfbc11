-- ===== src/Rtmp/ExportChunk.antt =====
-- common/src/media/rtmp/rtmp_export_chunk.cpp: a message is cut into chunks.
pub mod Buffer
use media_engine.Base.{
  ℕ, Bool, Option, none, some, List, [], ltb, leb, length, take, replicate, ◌+◌, ◌-◌, ◌%◌, ◌^◌,
  ◌&&◌, ◌∷◌, ◌++◌, ◌==◌, if◌then◌else◌,
}
use media_engine.Base.Bytes.{Bytes}
use media_engine.Rtmp.Header.{t0, t1, t2, ChunkHeader, new_chunk_header, zero_header}
use media_engine.Rtmp.MuxUtil.{
  extend_timestamp, packet_header_size_max, get_chunk_header_raw, chunk_header_raw_size,
  get_chunk_data_raw_size, get_chunk_data_raw,
}

-- `RtmpMuxMessageHeader`
pub record MuxMessageHeader : Type 0 where
  pub chunk_stream_id : ℕ
  pub timestamp : ℕ
  pub type_id : ℕ
  pub stream_id : ℕ
  pub body_size : ℕ

pub record ExportStream : Type 0 where
  pub message_header : MuxMessageHeader
  pub timestamp_delta : ℕ

abbrev pub new_export_stream : ExportStream
new_export_stream = record {
  message_header = record {
    chunk_stream_id = 0;
    timestamp = 0;
    type_id = 0;
    stream_id = 0;
    body_size = 0;
  };
  timestamp_delta = 0;
}

abbrev pub StreamMap : Type 0
StreamMap = List (ℕ × ExportStream)

pub record ExportChunk : Type 0 where
  pub stream_map : StreamMap
  pub compress_header : Bool
  pub chunk_size : ℕ

unfoldable pub find_stream : ℕ → StreamMap → Option ExportStream
find_stream k [] = none
find_stream k ((j, s) ∷ m) = if j == k then some s else find_stream k m

unfoldable pub update_stream : ℕ → ExportStream → StreamMap → StreamMap
update_stream k v [] = (k, v) ∷ []
update_stream k v ((j, s) ∷ m) = if j == k then (k, v) ∷ m else (j, s) ∷ update_stream k v m

-- `GetStream`: the stream of the id, or a new one. `export_stream_data` puts it into the map.
unfoldable pub get_stream : ExportChunk → ℕ → ExportStream
unfolding find_stream
get_stream c id = elim (find_stream id c.stream_map) [ none ↦ new_export_stream | some s ↦ s ]

-- `GetChunkHeader`. The timestamp and the length go into bit fields of 24 bits, and the test for
-- the extended timestamp reads the field.
unfoldable pub get_chunk_header : ExportChunk → ExportStream → MuxMessageHeader → ChunkHeader
get_chunk_header c s m =
    let old = s.message_header in
    let same =
      c.compress_header
      && (old.chunk_stream_id == m.chunk_stream_id && old.stream_id == m.stream_id) in
    let delta = (m.timestamp + 2 ^ 32 - old.timestamp) % 2 ^ 32 % 2 ^ 24 in
    let ts = m.timestamp % 2 ^ 24 in
    if same && (old.body_size == m.body_size && old.type_id == m.type_id)
    then record new_chunk_header {
      format_type = t2;
      stream_id = m.chunk_stream_id;
      header = record zero_header { timestamp = delta };
      is_extended = leb extend_timestamp delta;
    }
    else if same
    then record new_chunk_header {
      format_type = t1;
      stream_id = m.chunk_stream_id;
      header = record zero_header {
        timestamp = delta;
        length = m.body_size % 2 ^ 24;
        type_id = m.type_id;
      };
      is_extended = leb extend_timestamp delta;
    }
    else record new_chunk_header {
      format_type = t0;
      stream_id = m.chunk_stream_id;
      header = record {
        timestamp = ts;
        length = m.body_size % 2 ^ 24;
        type_id = m.type_id;
        stream_id = m.stream_id;
      };
      is_extended = leb extend_timestamp ts;
    }

-- What `ExportStreamData` hands back: no data, the bytes, or a write behind the buffer.
pub data Exported : Type 0 where
  null overflow : Exported
  exported : Bytes → Exported

-- `vector::resize`
unfoldable pub resize : ℕ → Bytes → Bytes
resize n xs = take n xs ++ replicate (n - length xs) 0

unfoldable pub buffer_size : ExportChunk → ChunkHeader → MuxMessageHeader → ℕ
buffer_size c h m =
    packet_header_size_max
    + get_chunk_data_raw_size c.chunk_size m.chunk_stream_id m.body_size h.is_extended

-- The bytes that are written into the buffer. A header of type 3, for which `type3_time` would be
-- 0, is never made.
unfoldable pub written : ExportChunk → ChunkHeader → MuxMessageHeader → Bytes → Bytes
written c h m body =
    get_chunk_header_raw h h.is_extended
    ++ get_chunk_data_raw c.chunk_size m.chunk_stream_id body h.is_extended h.header.timestamp

-- `export_size`
unfoldable pub written_size : ExportChunk → ChunkHeader → MuxMessageHeader → Bytes → ℕ
written_size c h m body =
    chunk_header_raw_size h h.is_extended
    + length
        (get_chunk_data_raw c.chunk_size m.chunk_stream_id body h.is_extended h.header.timestamp)

-- `ExportStreamData`. The buffer starts as zeros.
unfoldable pub export_stream_data : ExportChunk → MuxMessageHeader → Bytes → ExportChunk × Exported
unfolding resize buffer_size written written_size
export_stream_data c m body =
    if ltb m.chunk_stream_id 2
    then (c, null)
    else (let s = get_stream c m.chunk_stream_id in
        let h = get_chunk_header c s m in
        let bytes = written c h m body in
        let size = buffer_size c h m in
        if ltb size (length bytes) then (c, overflow) else (
          record c {
            stream_map =
                update_stream m.chunk_stream_id
                  (record {
                    message_header = m;
                    timestamp_delta = (m.timestamp + 2 ^ 32 - s.message_header.timestamp) % 2 ^ 32;
                  })
                  c.stream_map;
          },
          exported (resize (written_size c h m body) (bytes ++ replicate (size - length bytes) 0)),
        ))

-- The constructor.
abbrev pub new_export_chunk : Bool → ℕ → ExportChunk
new_export_chunk compress n = record { stream_map = []; compress_header = compress; chunk_size = n }
