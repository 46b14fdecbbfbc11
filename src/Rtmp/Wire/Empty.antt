-- ===== src/Rtmp/Wire/Empty.antt =====
-- A message without a body between the exporter and the importer.
use media_engine.Base.{
  ℕ, refl, sym, ap, inl, inr, false, some, List, [], append-nil, arith, lt→leb, ==_iff, Bool-cases,
  length, ◌%◌, ◌^◌, ◌≤◌, ◌<◌, ◌≡◌, ◌∙◌, ◌||◌, ◌∷◌, ◌++◌, ◌==◌, if◌then◌else◌,
}
use media_engine.Base.Bytes.{Bytes}
use media_engine.Rtmp.Header.{t0, ChunkHeader, Message}
use media_engine.Rtmp.MuxUtil.{
  get_chunk_header_raw, chunk_header_raw_size, get_chunk_data_raw,
  get_basic_header_size_by_chunk_stream_id,
}
use media_engine.Rtmp.MuxUtil.Sizes.{length-chunk_header_raw}
use media_engine.Rtmp.ChunkParser.{ChunkMap, find, assign}
use media_engine.Rtmp.ChunkParser.RoundTrip.{parsed_header, parse-get_chunk_header_raw}
use media_engine.Rtmp.ExportChunk.{
  ExportChunk, MuxMessageHeader, exported, get_stream, written, export_stream_data,
}
use media_engine.Rtmp.ExportChunk.Buffer.{export-written}
use media_engine.Rtmp.ImportChunk.{ImportChunk, import_payload, import}
use media_engine.Rtmp.ImportChunk
use media_engine.Rtmp.ImportChunk.Empty.{
  waiting_header, accepted, waits_above, before_type_3, process_start,
}
use media_engine.Rtmp.ImportChunk.Steps.{idle, waiting, accept_header}
use media_engine.Rtmp.Wire.{sent_fields, sent_extended, sent_header, header_uncompressed}

find-assign : (k : ℕ) (h : ChunkHeader) (map : ChunkMap) → find k (assign k h map) ≡ some h
unfolding find assign
find-assign k h [] = rw ((==_iff k k).1 refl) refl
find-assign k h ((j, w) ∷ map) = elim (Bool-cases (j == k)) [
  | inl same ↦ rw (same, (==_iff k k).1 refl) refl
  | inr other ↦
      ap (λ b. find k (if b then (k, h) ∷ map else (j, w) ∷ assign k h map)) other
      ∙ ap (λ b. if b then some w else find k (assign k h map)) other
      ∙ find-assign k h map
]

-- A message of no bytes whose fields fit the wire, on a chunk stream with a basic header of one
-- byte and without an extended timestamp.
pub record IsEmptyMessage (m : MuxMessageHeader) : Type 0 where
  pub id_lower : 2 ≤ m.chunk_stream_id
  pub id_upper : m.chunk_stream_id < 64
  pub no_bytes : m.body_size ≡ 0
  pub type_fits : m.type_id < 256
  pub stream_fits : m.stream_id < 2 ^ 32
  pub not_extended : sent_extended m ≡ false

-- Too few bytes for the payload that is waited for leave the importer as it is.
still_waiting :
    (c : ImportChunk) (parsed : ℕ) (h : ChunkHeader) (s : Bytes)
    → length s < h.expected_payload_size
    → import_payload c parsed h s ≡ (c, ImportChunk.used parsed false)
unfolding import_payload
still_waiting c parsed h s few = rw (lt→leb _ _ few) refl

import_again :
    (map : ChunkMap) (queue : List Message) (n : ℕ) (h : ChunkHeader) (s : Bytes)
    → import (waiting map queue n h) s ≡ import_payload (waiting map queue n h) 0 h s
unfolding import
import_again map queue n h s = rw (find-assign h.stream_id h map) refl

module _ (c : ExportChunk) (m : MuxMessageHeader) (plain : c.compress_header ≡ false)
    (empty : IsEmptyMessage m) (lo : 2 ≤ c.chunk_size) (hi : c.chunk_size ≤ 2 ^ 16) where
  abbrev bytes : Bytes
  bytes = get_chunk_header_raw (sent_header m) (sent_extended m)

  no_data :
      get_chunk_data_raw c.chunk_size m.chunk_stream_id [] (sent_extended m) (m.timestamp % 2 ^ 24)
      ≡ []
  unfolding get_chunk_data_raw
  no_data = let some_size : (c.chunk_size == 0) ≡ false = ground arith in rw some_size refl

  export_empty : (export_stream_data c m []).1 ≡ exported bytes
  unfolding written
  export_empty =
      export-written c m [] empty.id_lower empty.no_bytes
      ∙ ap (λ h. exported (written c h m []))
          (header_uncompressed c (get_stream c m.chunk_stream_id) m plain)
      ∙ ap (λ d. exported (bytes ++ d)) no_data
      ∙ ap exported (append-nil bytes)

  abbrev parsed : ChunkHeader
  parsed = parsed_header t0 m.chunk_stream_id (sent_fields m) (sent_extended m)

  module _ (map : ChunkMap) (queue : List Message) where
    abbrev before : ChunkHeader
    before = before_type_3 parsed (find m.chunk_stream_id map)

    no_length : m.body_size % 2 ^ 24 ≡ 0
    no_length = omega (arith, empty.no_bytes)

    one_byte : get_basic_header_size_by_chunk_stream_id m.chunk_stream_id ≡ 1
    unfolding get_basic_header_size_by_chunk_stream_id
    one_byte = ground (arith, empty.id_upper)

    flag : (sent_extended m || false) ≡ false
    flag = rw empty.not_extended refl

    abbrev awaited : ChunkHeader
    awaited = waiting_header c.chunk_size before lo no_length one_byte flag

    few_bytes : (s : Bytes) → length s < 65535 → length s < awaited.expected_payload_size
    few_bytes s few = omega (arith, waits_above c.chunk_size lo hi)

    header_in :
        (s : Bytes)
        → 0 < length s
        → import (idle map queue c.chunk_size) (bytes ++ s)
          ≡ import_payload
              (waiting map queue c.chunk_size awaited)
              (chunk_header_raw_size (sent_header m) (sent_extended m))
              awaited
              s
    header_in s more =
        accept_header map queue c.chunk_size _ awaited _ s _
          (parse-get_chunk_header_raw map (sent_header m) s (λ p. cc) empty.id_lower
            (omega (arith, empty.id_upper))
            (record {
              timestamp_fits = omega arith;
              length_fits = omega arith;
              type_id_fits = empty.type_fits;
              stream_id_fits = empty.stream_fits;
            })
            refl more)
          (process_start c.chunk_size parsed (find m.chunk_stream_id map) refl no_length
            ∙ accepted c.chunk_size before lo no_length one_byte flag)

-- A message of no bytes is exported as its header alone, and the importer does not complete it on
-- fewer than 65535 further bytes: the call that reads the header takes it, completes nothing and
-- keeps the queue, and a later call, which may find other bytes, takes none and leaves the importer
-- as it is. So without header compression, with a chunk size from 2 to 2 ^ 16 on both sides, an
-- importer that is idle at first, and a byte at least behind the header, for a message with a basic
-- header of one byte, no extended timestamp, and fields that fit the wire.
pub import-empty :
    (c : ExportChunk) (m : MuxMessageHeader) (map : ChunkMap) (queue : List Message)
    (s more : Bytes)
    → c.compress_header ≡ false
    → IsEmptyMessage m
    → 2 ≤ c.chunk_size
    → c.chunk_size ≤ 2 ^ 16
    → 0 < length s
    → length s < 65535
    → length more < 65535
    → (bytes : Bytes) × (kept : ImportChunk) × ((export_stream_data c m []).1 ≡ exported bytes)
      × (import (idle map queue c.chunk_size) (bytes ++ s)
          ≡ (kept, ImportChunk.used (length bytes) false))
      × (kept.message_queue ≡ queue)
      × (import kept more ≡ (kept, ImportChunk.used 0 false))
import-empty c m map queue s more plain empty lo hi some_byte few few_more =
    let h = awaited c m plain empty lo hi map queue in
    let kept = waiting map queue c.chunk_size h in
    (
      bytes c m plain empty lo hi,
      kept,
      export_empty c m plain empty lo hi,
      header_in c m plain empty lo hi map queue s some_byte
          ∙ still_waiting kept _ h s (few_bytes c m plain empty lo hi map queue s few)
          ∙ ap (λ k. (kept, ImportChunk.used k false))
              (sym (length-chunk_header_raw (sent_header m) (sent_extended m))),
      refl,
      import_again map queue c.chunk_size h more
          ∙ still_waiting kept 0 h more (few_bytes c m plain empty lo hi map queue more few_more),
    )
