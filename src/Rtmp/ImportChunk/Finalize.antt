-- ===== src/Rtmp/ImportChunk/Finalize.antt =====
-- `FinalizeMessage` on the blocks of a whole message.
use media_engine.Base.{
  ℕ, suc, bit_or, refl, sym, ap, inl, inr, Bool, true, false, some, [], arith, leb, ==_iff,
  Bool-cases, length, take, take-append, ◌+◌, ◌-◌, ◌%◌, ◌^◌, ◌≤◌, ◌<◌, ◌≡◌, ◌∙◌, ◌∷◌, ◌++◌, ◌==◌,
}
use media_engine.Base.Bytes.{Bytes}
use media_engine.Rtmp.Header.{t3, ChunkHeader, extended_size}
use media_engine.Rtmp.MuxUtil.{
  block_separator, get_chunk_data_raw, get_chunk_basic_header_raw,
  get_basic_header_size_by_chunk_stream_id,
}
use media_engine.Rtmp.MuxUtil.Sizes.{
  length-block_separator, length-basic_header_raw, basic_header_raw_size_eq,
}
use media_engine.Rtmp.ImportChunk.{
  ok, refused, same_bytes, finalize_blocks, finalize_message, deliver, expected_header,
}
use media_engine.Base.Masks.{or_192}
use media_engine.Rtmp.ImportChunk.Rounds.{rounds, finalize-data_raw, finalize_mismatch}

-- The header that `CalculateForType3Header` expects is the one that the exporter writes, for the
-- ids whose basic header takes one or two bytes.
pub expected_header_eq :
    (id : ℕ)
    → 2 ≤ id
    → id < 320
    → (e : Bytes) × (expected_header (get_basic_header_size_by_chunk_stream_id id) id ≡ some e)
      × (take (get_basic_header_size_by_chunk_stream_id id) e ≡ get_chunk_basic_header_raw t3 id)
unfolding expected_header get_basic_header_size_by_chunk_stream_id get_chunk_basic_header_raw
expected_header_eq id lo hi = elim (Bool-cases (leb 64 id)) [
  | inl two ↦ (0xc0 ∷ ((id + 2 ^ 32 - 64) % 256) ∷ 0 ∷ 0 ∷ [], ground arith, ground arith)
  | inr one ↦
      (bit_or 0xc0 (id % 64) ∷ 0 ∷ 0 ∷ 0 ∷ [], ground arith, ground (arith, or_192 (id % 64)))
]

-- For the 3-byte form the expected header is always `0xc1`, the low byte and 0.
pub expected_header_three :
    (id : ℕ)
    → 320 ≤ id
    → id < 65600
    → expected_header (get_basic_header_size_by_chunk_stream_id id) id
      ≡ some (0xc1 ∷ ((id - 64) % 256) ∷ 0 ∷ 0 ∷ [])
unfolding expected_header get_basic_header_size_by_chunk_stream_id
expected_header_three id lo hi = ground arith

separator_prefix :
    (id : ℕ) (extend : Bool) (time : ℕ)
    → take (length (get_chunk_basic_header_raw t3 id)) (block_separator id extend time)
      ≡ get_chunk_basic_header_raw t3 id
unfolding block_separator
separator_prefix id extend time = take-append (get_chunk_basic_header_raw t3 id) _

-- `FinalizeMessage` on the blocks that `GetChunkDataRaw` has made of a body.
module _ (c id : ℕ) (body : Bytes) (extend : Bool) (time : ℕ) (h : ChunkHeader) (hc : 0 < c)
    (hb : 0 < length body)
    (basic : h.basic_header_size ≡ get_basic_header_size_by_chunk_stream_id id)
    (extended : h.is_extended ≡ extend)
    (announced : h.expected_payload_size ≡ length (get_chunk_data_raw c id body extend time)) where
  abbrev raw : Bytes
  raw = get_chunk_data_raw c id body extend time

  between_eq :
      h.basic_header_size + extended_size h.is_extended ≡ length (block_separator id extend time)
  between_eq = rw (basic, extended) (sym (length-block_separator id extend time))

  loop_eq :
      (rest : Bytes)
      → finalize_message c h (raw ++ rest)
        ≡ deliver h (
            finalize_blocks
              (suc (length raw))
              c
              (take h.basic_header_size h.expected_type_3_header)
              (length (block_separator id extend time))
              true
              (raw ++ rest)
              (length raw)
              [])
  loop_eq rest =
      let expected = take h.basic_header_size h.expected_type_3_header in
      unfold finalize_message in
      (ap
          (λ k. deliver h (
            finalize_blocks (suc h.expected_payload_size) c expected k true (raw ++ rest)
              h.expected_payload_size []))
          between_eq
        ∙ ap
            (λ n. deliver h (
              finalize_blocks (suc n) c expected (length (block_separator id extend time)) true
                (raw ++ rest) n []))
            announced)

  basic-le : get_basic_header_size_by_chunk_stream_id id ≤ length (block_separator id extend time)
  basic-le = omega (arith, length-block_separator id extend time)

  -- The message has that body, whatever follows it. Without a second block the expected header
  -- does not matter.
  pub finalize_message-data_raw :
      (rest : Bytes)
      → h.payload_size ≡ length body
      → (0 < rounds c body
          → take h.basic_header_size h.expected_type_3_header ≡ get_chunk_basic_header_raw t3 id)
      → finalize_message c h (raw ++ rest) ≡ ok (record { header = h; payload = body })
  finalize_message-data_raw rest size ex =
      let expected = take h.basic_header_size h.expected_type_3_header in
      let sized : (length body == h.payload_size) ≡ true = (==_iff _ _).1 (sym size) in
      loop_eq rest
      ∙ ap (deliver h) (
          finalize-data_raw c id body extend time hc hb expected rest
            (λ hr. rw (ex hr) (separator_prefix id extend time))
            (λ hr. omega (
              arith,
              ap length (ex hr),
              length-basic_header_raw t3 id,
              basic_header_raw_size_eq id,
              basic-le,
            )))
      ∙ (unfold deliver in rw sized)

  -- Where the second block stands behind another header than the expected one, it is refused.
  pub finalize_message_mismatch :
      (rest : Bytes)
      → 0 < rounds c body
      → length (take h.basic_header_size h.expected_type_3_header) ≤ h.basic_header_size
      → same_bytes
          (take
            (length (take h.basic_header_size h.expected_type_3_header))
            (block_separator id extend time))
          (take h.basic_header_size h.expected_type_3_header)
        ≡ false
      → finalize_message c h (raw ++ rest) ≡ refused
  finalize_message_mismatch rest hr hl hm =
      let expected = take h.basic_header_size h.expected_type_3_header in
      loop_eq rest
      ∙ ap (deliver h) (
          finalize_mismatch c id body extend time hc hb expected rest hr hm
            (omega (arith, basic-le)))
      ∙ (unfold deliver in refl)
