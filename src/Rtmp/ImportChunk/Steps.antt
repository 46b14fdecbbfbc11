-- ===== src/Rtmp/ImportChunk/Steps.antt =====
-- `Import` from an idle state, step by step.
use media_engine.Base.{ℕ, true, List, [], le→leb, length, ◌+◌, ◌≤◌, ◌≡◌, ◌∷◌, ◌++◌}
use media_engine.Base.Bytes.{Bytes}
use media_engine.Rtmp.Header.{ChunkHeader, Message}
use media_engine.Rtmp.ChunkParser.{
  ChunkMap, find, assign, ParseStatus, parse, at_status, reset, used,
}
use media_engine.Rtmp.ImportChunk.{
  ImportChunk, ok, refused, process_chunk_header, finalize_message, import_payload, import_parsed,
  import,
}
use media_engine.Rtmp.ImportChunk

-- An importer between two messages.
abbrev pub idle : ChunkMap → List Message → ℕ → ImportChunk
idle map queue n = record { chunk_map = map; message_queue = queue; chunk_size = n; parser = reset }

-- The importer once the header is accepted.
abbrev pub waiting : ChunkMap → List Message → ℕ → ChunkHeader → ImportChunk
waiting map queue n h = record {
  chunk_map = assign h.stream_id h map;
  message_queue = queue;
  chunk_size = n;
  parser = at_status h ParseStatus.completed;
}

module _ (map : ChunkMap) (queue : List Message) (n : ℕ) where
  pub accept_header :
      (h h' : ChunkHeader) (s s' : Bytes) (k : ℕ)
      → parse map reset s ≡ used k (at_status h ParseStatus.completed) s'
      → process_chunk_header n h (find h.stream_id map) ≡ ok h'
      → import (idle map queue n) s ≡ import_payload (waiting map queue n h') k h' s'
  unfolding import import_parsed
  accept_header h h' s s' k parsed processed = rw (parsed, import_parsed, processed)

  module _ (h : ChunkHeader) (s : Bytes) (k : ℕ)
      (arrived : h.expected_payload_size ≤ length s) where
    pub payload_ok :
        (m : Message)
        → finalize_message n h s ≡ ok m
        → import_payload (waiting map queue n h) k h s ≡ (
          idle (assign h.stream_id h map) (queue ++ (m ∷ [])) n,
          ImportChunk.used (k + h.expected_payload_size) true,
        )
    unfolding import_payload
    payload_ok m e = rw (le→leb _ _ arrived, import_payload, e)

    pub payload_refused :
        finalize_message n h s ≡ refused
        → import_payload (waiting map queue n h) k h s ≡ (waiting map queue n h, ImportChunk.error)
    unfolding import_payload
    payload_refused e = rw (le→leb _ _ arrived, import_payload, e)
