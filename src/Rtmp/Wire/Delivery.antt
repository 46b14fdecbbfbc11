-- ===== src/Rtmp/Wire/Delivery.antt =====
-- Whole messages between the exporter and the importer.
use media_engine.Base.{
  ℕ, refl, ap, inl, inr, Bool, true, false, some, List, [], arith, ltb, ltb→lt, Bool-cases, length,
  take, ◌-◌, ◌%◌, ◌^◌, ◌≤◌, ◌<◌, ◌≡◌, ◌⊎◌, ◌||◌, ◌∷◌, ◌++◌, if◌then◌else◌,
}
use media_engine.Base.Bytes.{Bytes}
use media_engine.Rtmp.Header.{t3, ChunkHeader, Message}
use media_engine.Rtmp.MuxUtil.{
  get_basic_header_size_by_chunk_stream_id, get_chunk_basic_header_raw, block_separator,
}
use media_engine.Rtmp.ChunkParser.{ChunkMap, find, assign}
use media_engine.Rtmp.ExportChunk.{ExportChunk, MuxMessageHeader, exported, export_stream_data}
use media_engine.Rtmp.ImportChunk.{ImportChunk, ImportReturn, import, expected_header, same_bytes}
use media_engine.Rtmp.ImportChunk
use media_engine.Rtmp.ImportChunk.Process.{message_timestamp}
use media_engine.Rtmp.ImportChunk.Rounds.{rounds, rounds_pos, rounds_zero}
use media_engine.Rtmp.ImportChunk.Finalize.{expected_header_eq, expected_header_three}
use media_engine.Rtmp.ImportChunk.Steps.{idle}
use media_engine.Rtmp.Wire.{
  IsSendable, sent_extended, received_header, header_bytes, data_bytes, export_eq, delivered,
  refused_at_block,
}

-- The importer, idle and of the same chunk size, has taken `bytes` in one call and has put the
-- message in the queue; `header` is what the message came with.
pub record IsDelivered (c : ExportChunk) (m : MuxMessageHeader) (body rest : Bytes) (map : ChunkMap)
    (queue : List Message) (bytes : Bytes) (header : ChunkHeader) : Type 0 where
  pub imported : import (idle map queue c.chunk_size) (bytes ++ rest) ≡ (
    idle
        (assign m.chunk_stream_id header map)
        (queue ++ (record { header = header; payload = body } ∷ []))
        c.chunk_size,
    ImportChunk.used (length bytes) true,
  )
  pub type_kept : header.completed.type_id ≡ m.type_id
  pub stream_kept : header.completed.stream_id ≡ m.stream_id
  pub length_kept : header.completed.length ≡ length body
  pub timestamp_kept :
      header.completed.timestamp
      ≡ message_timestamp (find m.chunk_stream_id map) (m.timestamp % 2 ^ 24)

start_time : (b : Bool) (t : ℕ) → (if b || false then (if b then t else 0) else t) ≡ t
start_time true t = refl
start_time false t = refl

module _ (c : ExportChunk) (m : MuxMessageHeader) (body rest : Bytes) (map : ChunkMap)
    (queue : List Message) (plain : c.compress_header ≡ false) (sendable : IsSendable m body)
    (hc : 0 < c.chunk_size) where
  abbrev bytes : Bytes
  bytes = header_bytes c m body plain sendable hc ++ data_bytes c m body plain sendable hc

  with_header :
      (e : Bytes)
      → expected_header
          (get_basic_header_size_by_chunk_stream_id m.chunk_stream_id)
          m.chunk_stream_id
        ≡ some e
      → (0 < rounds c.chunk_size body
          → take (get_basic_header_size_by_chunk_stream_id m.chunk_stream_id) e
            ≡ get_chunk_basic_header_raw t3 m.chunk_stream_id)
      → IsDelivered c m body rest map queue bytes
          (received_header c.chunk_size (find m.chunk_stream_id map) m e)
  with_header e known ex = record {
    imported = delivered c m body plain sendable hc map queue rest e known ex;
    type_kept = refl;
    stream_kept = refl;
    length_kept = omega (arith, sendable.body_size_eq, sendable.body_fits);
    timestamp_kept =
        ap (message_timestamp (find m.chunk_stream_id map))
          (start_time (sent_extended m) (m.timestamp % 2 ^ 24));
  }

  header_for :
      (m.chunk_stream_id < 320) ⊎ (length body ≤ c.chunk_size)
      → (e : Bytes) × (expected_header
            (get_basic_header_size_by_chunk_stream_id m.chunk_stream_id)
            m.chunk_stream_id
          ≡ some e)
        × (0 < rounds c.chunk_size body
            → take (get_basic_header_size_by_chunk_stream_id m.chunk_stream_id) e
              ≡ get_chunk_basic_header_raw t3 m.chunk_stream_id)
  header_for (inl small) =
      let (e, known, prefix) = expected_header_eq m.chunk_stream_id sendable.id_lower small in
      (e, known, λ _. prefix)
  header_for (inr single) = elim (Bool-cases (ltb m.chunk_stream_id 320)) [
    | inl small ↦
        let (e, known, prefix) =
          expected_header_eq m.chunk_stream_id sendable.id_lower (ltb→lt _ _ small) in
        (e, known, λ _. prefix)
    | inr big ↦ (
      _,
      expected_header_three m.chunk_stream_id (ground arith) sendable.id_upper,
      λ p. absurd (rounds_zero c.chunk_size body hc sendable.body_nonempty single p),
    )
  ]

-- Without header compression and with a chunk size above 0 on both sides, a message whose body is
-- not empty and whose fields fit the wire goes through exporter and importer whole: the importer
-- takes exactly the exported bytes in one call, whatever follows them, and queues the same body
-- with the same type, stream and length and the timestamp's low 24 bits, rolled against the last
-- message of the chunk stream. The condition is that the chunk stream id is below 320 or that one
-- chunk holds the body.
pub import-export :
    (c : ExportChunk) (m : MuxMessageHeader) (body rest : Bytes) (map : ChunkMap)
    (queue : List Message)
    → c.compress_header ≡ false
    → IsSendable m body
    → 0 < c.chunk_size
    → (m.chunk_stream_id < 320) ⊎ (length body ≤ c.chunk_size)
    → (bytes : Bytes) × (header : ChunkHeader) × ((export_stream_data c m body).1 ≡ exported bytes)
      × IsDelivered c m body rest map queue bytes header
import-export c m body rest map queue plain sendable hc fits =
    let (e, known, ex) = header_for c m body rest map queue plain sendable hc fits in
    (
      bytes c m body rest map queue plain sendable hc,
      received_header c.chunk_size (find m.chunk_stream_id map) m e,
      export_eq c m body plain sendable hc,
      with_header c m body rest map queue plain sendable hc e known ex,
    )

three_mismatch :
    (id : ℕ) (extend : Bool) (time : ℕ)
    → 320 ≤ id
    → id < 65600
    → same_bytes (take 3 (block_separator id extend time)) (0xc1 ∷ ((id - 64) % 256) ∷ 0 ∷ [])
      ≡ false
unfolding block_separator get_chunk_basic_header_raw same_bytes
three_mismatch id extend time lo hi = ground arith

basic_three : (id : ℕ) → 320 ≤ id → get_basic_header_size_by_chunk_stream_id id ≡ 3
unfolding get_basic_header_size_by_chunk_stream_id
basic_three id lo = ground arith

-- On the chunk stream ids 320 to 65599, whose basic header takes three bytes, and without header
-- compression, a message that fits the wire and needs a second chunk is exported and then refused:
-- the importer expects another third byte than the exporter writes.
pub import-export_three_bytes :
    (c : ExportChunk) (m : MuxMessageHeader) (body rest : Bytes) (map : ChunkMap)
    (queue : List Message)
    → c.compress_header ≡ false
    → IsSendable m body
    → 0 < c.chunk_size
    → 320 ≤ m.chunk_stream_id
    → c.chunk_size < length body
    → (bytes : Bytes) × ((export_stream_data c m body).1 ≡ exported bytes)
      × ((import (idle map queue c.chunk_size) (bytes ++ rest)).1 ≡ ImportChunk.error)
import-export_three_bytes c m body rest map queue plain sendable hc big long =
    let id = m.chunk_stream_id in
    let known = expected_header_three id big sendable.id_upper in
    (
      bytes c m body rest map queue plain sendable hc,
      export_eq c m body plain sendable hc,
      ap (λ (r : ImportChunk × ImportReturn). r.1)
          (refused_at_block c m body plain sendable hc map queue rest _ known
            (rounds_pos c.chunk_size body hc long) (rw (basic_three id big) (omega arith))
            (rw (basic_three id big)
              (three_mismatch id (sent_extended m) (m.timestamp % 2 ^ 24) big sendable.id_upper))),
    )
