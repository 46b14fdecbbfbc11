-- ===== src/Rtmp/ExportChunk/Buffer.antt =====
-- The exporter's buffer: it is large enough, and what comes back is what was written.
use media_engine.Base.{
  ℕ, sym, ap, append-nil, arith, le→ltb, length, take, replicate, length-append, take-append, ◌-◌,
  ◌≤◌, ◌≡◌, ◌∙◌, ◌++◌,
}
use media_engine.Base.Bytes.{Bytes}
use media_engine.Rtmp.Header.{ChunkHeader}
use media_engine.Rtmp.MuxUtil.{get_chunk_header_raw, get_chunk_data_raw, get_chunk_data_raw_size}
use media_engine.Rtmp.MuxUtil.Sizes.{
  length-chunk_header_raw, chunk_header_raw_size-le, length-get_chunk_data_raw,
}
use media_engine.Rtmp.ExportChunk.{
  ExportChunk, MuxMessageHeader, exported, get_stream, get_chunk_header, resize, buffer_size,
  written, written_size, export_stream_data,
}

resize_padded : (n k : ℕ) (xs : Bytes) → n ≡ length xs → resize n (xs ++ replicate k 0) ≡ xs
unfolding resize
resize_padded n k xs e =
    let filled : n - length (xs ++ replicate k 0) ≡ 0 =
      omega (arith, length-append xs (replicate k 0)) in
    rw filled
      (append-nil _ ∙ ap (λ j. take j (xs ++ replicate k 0)) e ∙ take-append xs (replicate k 0))

length-written :
    (c : ExportChunk) (h : ChunkHeader) (m : MuxMessageHeader) (body : Bytes)
    → length (written c h m body) ≡ written_size c h m body
unfolding written written_size
length-written c h m body = omega (
  arith,
  length-append (get_chunk_header_raw h h.is_extended)
      (get_chunk_data_raw c.chunk_size m.chunk_stream_id body h.is_extended h.header.timestamp),
  length-chunk_header_raw h h.is_extended,
)

written-le-buffer :
    (c : ExportChunk) (h : ChunkHeader) (m : MuxMessageHeader) (body : Bytes)
    → m.body_size ≡ length body
    → length (written c h m body) ≤ buffer_size c h m
unfolding buffer_size written_size
written-le-buffer c h m body e = omega (
  arith,
  ap (λ n. get_chunk_data_raw_size c.chunk_size m.chunk_stream_id n h.is_extended) e,
  length-written c h m body,
  chunk_header_raw_size-le h h.is_extended,
  length-get_chunk_data_raw c.chunk_size m.chunk_stream_id body h.is_extended h.header.timestamp,
)

-- Where the header states the size of the body and the stream id is not reserved, every write
-- stays inside the buffer and the exporter returns exactly
-- what it has written.
pub export-written :
    (c : ExportChunk) (m : MuxMessageHeader) (body : Bytes)
    → 2 ≤ m.chunk_stream_id
    → m.body_size ≡ length body
    → (export_stream_data c m body).1
      ≡ exported (written c (get_chunk_header c (get_stream c m.chunk_stream_id) m) m body)
unfolding export_stream_data
export-written c m body hid hb =
    let h = get_chunk_header c (get_stream c m.chunk_stream_id) m in
    let bytes = written c h m body in
    let fits = written-le-buffer c h m body hb in
    let size : written_size c h m body ≡ length bytes = sym (length-written c h m body) in
    rw (le→ltb m.chunk_stream_id 2 hid, le→ltb (buffer_size c h m) (length bytes) fits)
      (ap exported
        (resize_padded (written_size c h m body) (buffer_size c h m - length bytes) bytes size))
