-- ===== src/Rtmp/Wire.antt =====
-- From `RtmpExportChunk::ExportStreamData` to `RtmpImportChunk::Import`: what one side writes the
-- other side reads.
pub mod Delivery
pub mod Ordering
pub mod Empty
use media_engine.Base.{
  ℕ, refl, sym, ap, Bool, true, false, Option, some, List, [], append_assoc, arith, leb, length,
  take, length-append, ◌+◌, ◌%◌, ◌^◌, ◌≤◌, ◌<◌, ◌≡◌, ◌∙◌, ◌||◌, ◌∷◌, ◌++◌,
}
use media_engine.Base.Bytes.{Bytes}
use media_engine.Rtmp.Header.{t0, t3, ChunkHeader, MessageHeader, Message, new_chunk_header}
use media_engine.Rtmp.MuxUtil.{
  extend_timestamp, get_basic_header_size_by_chunk_stream_id, get_chunk_basic_header_raw,
  get_chunk_header_raw, chunk_header_raw_size, get_chunk_data_raw, block_separator,
}
use media_engine.Rtmp.MuxUtil.Sizes.{
  length-chunk_header_raw, length-block_separator, basic_header_raw_size-le,
  basic_header_raw_size_eq,
}
use media_engine.Rtmp.ChunkParser.{ChunkMap, find, assign, used}
use media_engine.Rtmp.ChunkParser.RoundTrip.{parsed_header, parse-get_chunk_header_raw}
use media_engine.Rtmp.ExportChunk.{
  ExportChunk, MuxMessageHeader, ExportStream, exported, get_stream, get_chunk_header, written,
  export_stream_data,
}
use media_engine.Rtmp.ExportChunk.Buffer.{export-written}
use media_engine.Rtmp.ImportChunk.{same_bytes, import, expected_header}
use media_engine.Rtmp.ImportChunk
use media_engine.Rtmp.ImportChunk.Process.{started, process_chunk_header_t0}
use media_engine.Rtmp.ImportChunk.Finalize.{finalize_message-data_raw, finalize_message_mismatch}
use media_engine.Rtmp.ImportChunk.Rounds.{rounds, length-data_raw}
use media_engine.Rtmp.ImportChunk.Steps.{idle, waiting, accept_header, payload_ok, payload_refused}

-- A message that the exporter takes as it is: no field is cut.
pub record IsSendable (m : MuxMessageHeader) (body : Bytes) : Type 0 where
  pub id_lower : 2 ≤ m.chunk_stream_id
  pub id_upper : m.chunk_stream_id < 65600
  pub body_size_eq : m.body_size ≡ length body
  pub body_nonempty : 0 < length body
  pub body_fits : length body < 2 ^ 24
  pub type_fits : m.type_id < 256
  pub stream_fits : m.stream_id < 2 ^ 32

-- The fields that go over the wire; the timestamp is cut to 24 bits.
abbrev pub sent_fields : MuxMessageHeader → MessageHeader
sent_fields m = record {
  timestamp = m.timestamp % 2 ^ 24;
  length = m.body_size % 2 ^ 24;
  type_id = m.type_id;
  stream_id = m.stream_id;
}

abbrev pub sent_extended : MuxMessageHeader → Bool
sent_extended m = leb extend_timestamp (m.timestamp % 2 ^ 24)

abbrev pub sent_header : MuxMessageHeader → ChunkHeader
sent_header m = record new_chunk_header {
  format_type = t0;
  stream_id = m.chunk_stream_id;
  header = sent_fields m;
  is_extended = sent_extended m;
}

-- The header with which the importer waits for the payload.
abbrev pub received_header : ℕ → Option ChunkHeader → MuxMessageHeader → Bytes → ChunkHeader
received_header n last m e =
    started n (parsed_header t0 m.chunk_stream_id (sent_fields m) (sent_extended m)) last e

header_uncompressed :
    (c : ExportChunk) (s : ExportStream) (m : MuxMessageHeader)
    → c.compress_header ≡ false
    → get_chunk_header c s m ≡ sent_header m
unfolding get_chunk_header
header_uncompressed c s m e = rw e

or_false : (b : Bool) → (b || false) ≡ b
or_false true = refl
or_false false = refl

module _ (c : ExportChunk) (m : MuxMessageHeader) (body : Bytes) (plain : c.compress_header ≡ false)
    (sendable : IsSendable m body) (hc : 0 < c.chunk_size) where
  abbrev data_bytes : Bytes
  data_bytes =
      get_chunk_data_raw c.chunk_size m.chunk_stream_id body (sent_extended m)
        (m.timestamp % 2 ^ 24)

  abbrev header_bytes : Bytes
  header_bytes = get_chunk_header_raw (sent_header m) (sent_extended m)

  -- What the exporter hands back.
  pub export_eq : (export_stream_data c m body).1 ≡ exported (header_bytes ++ data_bytes)
  export_eq =
      export-written c m body sendable.id_lower sendable.body_size_eq
      ∙ ap (λ h. exported (written c h m body))
          (header_uncompressed c (get_stream c m.chunk_stream_id) m plain)
      ∙ (unfold written in refl)

  module _ (map : ChunkMap) (queue : List Message) (rest : Bytes) (e : Bytes)
      (known : expected_header
          (get_basic_header_size_by_chunk_stream_id m.chunk_stream_id)
          m.chunk_stream_id
        ≡ some e) where
    abbrev h' : ChunkHeader
    h' = received_header c.chunk_size (find m.chunk_stream_id map) m e

    length_kept : m.body_size % 2 ^ 24 ≡ length body
    length_kept = omega (arith, sendable.body_size_eq, sendable.body_fits)

    data_length : length data_bytes ≡ h'.expected_payload_size
    data_length =
        rw
          (
            length-data_raw c.chunk_size m.chunk_stream_id body (sent_extended m)
                (m.timestamp % 2 ^ 24) hc sendable.body_nonempty,
            length-block_separator m.chunk_stream_id (sent_extended m) (m.timestamp % 2 ^ 24),
            length_kept,
            or_false (sent_extended m),
          )
          refl

    accepted :
        import (idle map queue c.chunk_size) ((header_bytes ++ data_bytes) ++ rest)
        ≡ ImportChunk.import_payload
            (waiting map queue c.chunk_size h')
            (chunk_header_raw_size (sent_header m) (sent_extended m))
            h'
            (data_bytes ++ rest)
    accepted =
        ap (import (idle map queue c.chunk_size)) (append_assoc header_bytes data_bytes rest)
        ∙ accept_header map queue c.chunk_size _ h' _ (data_bytes ++ rest) _
            (parse-get_chunk_header_raw map (sent_header m) (data_bytes ++ rest) (λ p. cc)
              sendable.id_lower sendable.id_upper
              (record {
                timestamp_fits = omega arith;
                length_fits = omega arith;
                type_id_fits = sendable.type_fits;
                stream_id_fits = sendable.stream_fits;
              })
              refl
              (omega (
                arith,
                length-append data_bytes rest,
                length-data_raw c.chunk_size m.chunk_stream_id body (sent_extended m)
                    (m.timestamp % 2 ^ 24) hc sendable.body_nonempty,
                sendable.body_nonempty,
              )))
            (process_chunk_header_t0 c.chunk_size
              (parsed_header t0 m.chunk_stream_id (sent_fields m) (sent_extended m)) e hc
              (omega (arith, length_kept, sendable.body_nonempty)) (omega arith)
              (omega (
                arith,
                basic_header_raw_size-le m.chunk_stream_id,
                basic_header_raw_size_eq m.chunk_stream_id,
              ))
              known refl (find m.chunk_stream_id map))

    payload_size_eq :
        length (header_bytes ++ data_bytes)
        ≡ chunk_header_raw_size (sent_header m) (sent_extended m) + h'.expected_payload_size
    payload_size_eq = omega (
      arith,
      length-append header_bytes data_bytes,
      length-chunk_header_raw (sent_header m) (sent_extended m),
      data_length,
    )

    arrived : h'.expected_payload_size ≤ length (data_bytes ++ rest)
    arrived = omega (arith, length-append data_bytes rest, data_length)

    pub delivered :
        (0 < rounds c.chunk_size body
          → take h'.basic_header_size h'.expected_type_3_header
            ≡ get_chunk_basic_header_raw t3 m.chunk_stream_id)
        → import (idle map queue c.chunk_size) ((header_bytes ++ data_bytes) ++ rest) ≡ (
          idle
              (assign m.chunk_stream_id h' map)
              (queue ++ (record { header = h'; payload = body } ∷ []))
              c.chunk_size,
          ImportChunk.used (length (header_bytes ++ data_bytes)) true,
        )
    delivered ex =
        accepted
        ∙ payload_ok map queue c.chunk_size h' (data_bytes ++ rest) _ arrived
            (record { header = h'; payload = body })
            (finalize_message-data_raw c.chunk_size m.chunk_stream_id body (sent_extended m)
              (m.timestamp % 2 ^ 24) h' hc sendable.body_nonempty refl (or_false (sent_extended m))
              (sym data_length) rest length_kept ex)
        ∙ ap
            (λ k. (
              idle (assign m.chunk_stream_id h' map)
                  (queue ++ (record { header = h'; payload = body } ∷ [])) c.chunk_size,
              ImportChunk.used k true,
            ))
            (sym payload_size_eq)

    pub refused_at_block :
        0 < rounds c.chunk_size body
        → length (take h'.basic_header_size e) ≤ h'.basic_header_size
        → same_bytes
            (take
              (length (take h'.basic_header_size e))
              (block_separator m.chunk_stream_id (sent_extended m) (m.timestamp % 2 ^ 24)))
            (take h'.basic_header_size e)
          ≡ false
        → import (idle map queue c.chunk_size) ((header_bytes ++ data_bytes) ++ rest)
          ≡ (waiting map queue c.chunk_size h', ImportChunk.error)
    refused_at_block hr hl hm =
        accepted
        ∙ payload_refused map queue c.chunk_size h' (data_bytes ++ rest) _ arrived (
            finalize_message_mismatch c.chunk_size m.chunk_stream_id body (sent_extended m)
              (m.timestamp % 2 ^ 24) h' hc sendable.body_nonempty refl (or_false (sent_extended m))
              (sym data_length) rest hr hl hm)
