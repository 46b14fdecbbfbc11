-- ===== src/Rtmp/Tests.antt =====
-- Runs of the exporter, the parser and the importer, and each theorem on concrete data.
use media_engine.Base.{
  refl, inl, true, false, some, List, [], arith, length, ◌+◌, ◌/◌, ◌%◌, ◌^◌, ◌≤◌, ◌<◌, ◌≡◌, ◌⊎◌,
  ◌∷◌, ◌++◌,
}
use media_engine.Base.Bytes.{Bytes}
use media_engine.Rtmp.Header.{ChunkHeader, new_chunk_header, t1}
use media_engine.Rtmp.MuxUtil.{
  get_chunk_header_raw, chunk_header_raw_size, get_chunk_data_raw, get_chunk_data_raw_size,
}
use media_engine.Rtmp.MuxUtil.Sizes.{length-get_chunk_data_raw}
use media_engine.Rtmp.ChunkParser.{parse, reset, at_status, used}
use media_engine.Rtmp.ChunkParser
use media_engine.Rtmp.ChunkParser.RoundTrip.{parse-get_chunk_header_raw, parsed_header}
use media_engine.Rtmp.ChunkParser.Totality.{Returns, parse-Returns}
use media_engine.Rtmp.ExportChunk.{
  ExportChunk, MuxMessageHeader, exported, export_stream_data, new_export_chunk, written,
  get_chunk_header, get_stream,
}
use media_engine.Rtmp.ExportChunk.Buffer.{export-written}
use media_engine.Rtmp.ImportChunk.{
  ImportChunk, import, new_import_chunk, calculate_rolled_timestamp, distance,
}
use media_engine.Rtmp.ImportChunk
use media_engine.Rtmp.ImportChunk.Steps.{idle}
use media_engine.Rtmp.ImportChunk.Totality.{Imported, import-Imported}
use media_engine.Rtmp.ImportChunk.Timestamps.{rolled_timestamp, rolled_again}
use media_engine.Rtmp.Wire.Empty.{IsEmptyMessage, import-empty}
use media_engine.Rtmp.Wire.{IsSendable}
use media_engine.Rtmp.Wire.Ordering.{Sent, export_each, Queues, import_each-export_each}
use media_engine.Rtmp.Wire.Delivery.{IsDelivered, import-export, import-export_three_bytes}

abbrev video : MuxMessageHeader
video = record { chunk_stream_id = 8; timestamp = 77; type_id = 9; stream_id = 1; body_size = 5 }

-- On a stream whose basic header has three bytes.
abbrev far_video : MuxMessageHeader
far_video = record video { chunk_stream_id = 600 }

abbrev five : Bytes
five = 1 ∷ 2 ∷ 3 ∷ 4 ∷ 5 ∷ []

abbrev exporter : ExportChunk
exporter = new_export_chunk false 2

video-IsSendable : IsSendable video five
video-IsSendable = record {
  id_lower = omega arith;
  id_upper = omega arith;
  body_size_eq = refl;
  body_nonempty = omega arith;
  body_fits = omega arith;
  type_fits = omega arith;
  stream_fits = omega arith;
}

far-IsSendable : IsSendable far_video five
far-IsSendable = record {
  id_lower = omega arith;
  id_upper = omega arith;
  body_size_eq = refl;
  body_nonempty = omega arith;
  body_fits = omega arith;
  type_fits = omega arith;
  stream_fits = omega arith;
}

import-export_example :
    (bytes : Bytes) × (header : ChunkHeader) × ((export_stream_data exporter video five).1
      ≡ exported bytes)
    × IsDelivered exporter video five (9 ∷ []) [] [] bytes header
import-export_example =
    import-export exporter video five (9 ∷ []) [] [] refl video-IsSendable (omega arith)
      (inl (omega arith))

-- The same body on two chunk streams.
abbrev two_messages : List Sent
two_messages = (video, five) ∷ (record video { chunk_stream_id = 9; type_id = 8 }, five) ∷ []

audio-IsSendable : IsSendable (record video { chunk_stream_id = 9; type_id = 8 }) five
audio-IsSendable = record {
  id_lower = omega arith;
  id_upper = omega arith;
  body_size_eq = refl;
  body_nonempty = omega arith;
  body_fits = omega arith;
  type_fits = omega arith;
  stream_fits = omega arith;
}

import_each-export_each_example :
    (bytes : Bytes) × (export_each exporter two_messages ≡ some bytes)
    × Queues 2 two_messages bytes (7 ∷ []) [] []
import_each-export_each_example =
    import_each-export_each exporter two_messages (7 ∷ []) [] [] refl (omega arith)
      ((video-IsSendable, inl (omega arith)), ((audio-IsSendable, inl (omega arith)), record {}))

import-export_three_bytes_example :
    (bytes : Bytes) × ((export_stream_data exporter far_video five).1 ≡ exported bytes)
    × ((import (idle [] [] 2) (bytes ++ [])).1 ≡ ImportChunk.error)
import-export_three_bytes_example =
    import-export_three_bytes exporter far_video five [] [] [] refl far-IsSendable (omega arith)
      (omega arith) (omega arith)

import-Imported_example : Imported 4 (import (new_import_chunk 128) (3 ∷ 0 ∷ 0 ∷ 9 ∷ []))
import-Imported_example =
    import-Imported (new_import_chunk 128) (3 ∷ 0 ∷ 0 ∷ 9 ∷ []) (omega arith, refl)

parse-Returns_example : Returns (0xc3 ∷ 7 ∷ []) 0 (parse [] reset (0xc3 ∷ 7 ∷ []))
parse-Returns_example = parse-Returns [] reset (0xc3 ∷ 7 ∷ []) refl

abbrev compressed : ChunkHeader
compressed = record new_chunk_header {
  format_type = t1;
  stream_id = 70;
  header = record { timestamp = 0xffffff; length = 300; type_id = 8; stream_id = 0 };
  is_extended = true;
}

parse-get_chunk_header_raw_example :
    parse [] reset (get_chunk_header_raw compressed true ++ (5 ∷ []))
    ≡ used
        (chunk_header_raw_size compressed true)
        (at_status (parsed_header t1 70 compressed.header true) ChunkParser.ParseStatus.completed)
        (5 ∷ [])
parse-get_chunk_header_raw_example =
    parse-get_chunk_header_raw [] compressed (5 ∷ []) (λ p. cc) (omega arith) (omega arith)
      (record {
        timestamp_fits = omega arith;
        length_fits = omega arith;
        type_id_fits = omega arith;
        stream_id_fits = omega arith;
      })
      refl (omega arith)

export-written_example :
    (export_stream_data exporter video five).1
    ≡ exported
        (written exporter (get_chunk_header exporter (get_stream exporter 8) video) video five)
export-written_example = export-written exporter video five (omega arith) refl

length-get_chunk_data_raw_example :
    length (get_chunk_data_raw 2 70 five true 9) ≡ get_chunk_data_raw_size 2 70 5 true
length-get_chunk_data_raw_example = length-get_chunk_data_raw 2 70 five true 9

rolled_timestamp_example :
    (calculate_rolled_timestamp 2147483600 20 % 2 ^ 31 ≡ 20 % 2 ^ 31)
    × (((distance 2147483600 20 < 2 ^ 30) × (calculate_rolled_timestamp 2147483600 20 ≡ 20))
        ⊎ ((2 ^ 30 ≤ distance 2147483600 20)
            × (calculate_rolled_timestamp 2147483600 20 / 2 ^ 31
                ≡ 2147483600 / 2 ^ 31 + 1 + 20 / 2 ^ 31)))
rolled_timestamp_example = rolled_timestamp 2147483600 20

rolled_again_example :
    calculate_rolled_timestamp (calculate_rolled_timestamp 2147483600 20) (20 + 40)
    ≡ calculate_rolled_timestamp 2147483600 20 + (2 ^ 31 + 40)
rolled_again_example = rolled_again 2147483600 20 40 (omega arith) (omega arith)

-- A message without a body.
abbrev empty_video : MuxMessageHeader
empty_video = record video { body_size = 0 }

empty_video-IsEmptyMessage : IsEmptyMessage empty_video
empty_video-IsEmptyMessage = record {
  id_lower = omega arith;
  id_upper = omega arith;
  no_bytes = refl;
  type_fits = omega arith;
  stream_fits = omega arith;
  not_extended = refl;
}

import-empty_example :
    (bytes : Bytes) × (kept : ImportChunk) × ((export_stream_data exporter empty_video []).1
      ≡ exported bytes)
    × (import (idle [] [] 2) (bytes ++ five) ≡ (kept, ImportChunk.used (length bytes) false))
    × (kept.message_queue ≡ [])
    × (import kept (five ++ five) ≡ (kept, ImportChunk.used 0 false))
import-empty_example =
    import-empty exporter empty_video [] [] five (five ++ five) refl empty_video-IsEmptyMessage
      (omega arith) (omega arith) (omega arith) (omega arith) (omega arith)
