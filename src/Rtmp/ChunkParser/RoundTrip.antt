-- ===== src/Rtmp/ChunkParser/RoundTrip.antt =====
-- A whole chunk header, written and parsed.
use media_engine.Base.{
  ℕ, suc, refl, ap, Bool, [], append_assoc, arith, length, length-append, ◌+◌, ◌≤◌, ◌<◌, ◌≡◌, ◌∙◌,
  ◌≢◌, ◌∷◌, ◌++◌, if◌then◌else◌,
}
use media_engine.Base.Bytes.{Bytes}
use media_engine.Rtmp.Header.{
  ChunkType, t0, t1, t2, t3, msg_size, ChunkHeader, MessageHeader, new_chunk_header,
  recalculate_header_size,
}
use media_engine.Rtmp.MuxUtil.{
  get_basic_header_size_by_chunk_stream_id, get_chunk_basic_header_raw, message_header_raw,
  message_header_raw_size, get_chunk_header_raw, chunk_header_raw_size, basic_header_raw_size,
}
use media_engine.Rtmp.MuxUtil.Sizes.{basic_header_raw_size_eq}
use media_engine.Rtmp.ChunkParser.{
  ChunkMap, find, ChunkParser, ParseStatus, message_header, extended_timestamp, ParseReturn, used,
  return, continue, turn, parse_loop, parse, at_status, reset,
}
use media_engine.Rtmp.ChunkParser
use media_engine.Rtmp.ChunkParser.Headers.{
  with_basic, with_message, with_extended, extended_tail, Fits, Flagged, parse-basic_header_raw,
  parse-message_header_raw, parse_extended-tail,
}

-- A round of the loop, by what it did.
module _ (m : ChunkMap) (fuel : ℕ) (p : ChunkParser) (total parsed : ℕ) where
  loop-continue :
      (s : Bytes) (p' : ChunkParser) (s' : Bytes) (total' parsed' : ℕ)
      → 0 < length s
      → turn m p s total parsed ≡ continue p' s' total' parsed'
      → parse_loop (suc fuel) m p s total parsed ≡ parse_loop fuel m p' s' total' parsed'
  unfolding parse_loop
  loop-continue [] p' s' total' parsed' h e = elim h [ ]
  loop-continue (b ∷ bs) p' s' total' parsed' h e = rw (e, parse_loop)

  loop-return :
      (s : Bytes) (r : ParseReturn)
      → 0 < length s
      → turn m p s total parsed ≡ return r
      → parse_loop (suc fuel) m p s total parsed ≡ r
  unfolding parse_loop
  loop-return [] r h e = elim h [ ]
  loop-return (b ∷ bs) r h e = rw (e, parse_loop)

-- The header that the parser ends with.
abbrev pub parsed_header : ChunkType → ℕ → MessageHeader → Bool → ChunkHeader
parsed_header type id m extend =
    recalculate_header_size
      (with_extended extend m.timestamp (with_message type (with_basic new_chunk_header type id) m))

format_type-with_message :
    (type : ChunkType) (h : ChunkHeader) (m : MessageHeader)
    → (with_message type h m).format_type ≡ h.format_type
format_type-with_message t0 h m = refl
format_type-with_message t1 h m = refl
format_type-with_message t2 h m = refl
format_type-with_message t3 h m = refl

timestamp-with_message :
    (type : ChunkType) (h : ChunkHeader) (m : MessageHeader)
    → type ≢ t3
    → (with_message type h m).header.timestamp ≡ m.timestamp
timestamp-with_message t0 h m ne = refl
timestamp-with_message t1 h m ne = refl
timestamp-with_message t2 h m ne = refl
timestamp-with_message t3 h m ne = absurd (ne refl)

module _ (map : ChunkMap) (type : ChunkType) (id : ℕ) (m : MessageHeader) (extend : Bool)
    (s : Bytes) (sent : type ≢ t3) (lo : 2 ≤ id) (hi : id < 65600) (fits : Fits m)
    (flagged : Flagged m extend) (more : 0 < length s) where
  abbrev basic : ChunkHeader
  basic = with_basic new_chunk_header type id

  abbrev header_bytes : Bytes
  header_bytes = get_chunk_basic_header_raw type id ++ (message_header_raw type m extend ++ s)

  abbrev size : ℕ
  size = get_basic_header_size_by_chunk_stream_id id

  first_turn :
      turn map reset header_bytes 0 0
      ≡ continue (at_status basic message_header) (message_header_raw type m extend ++ s) size size
  unfolding turn
  first_turn = rw (
      parse-basic_header_raw new_chunk_header type id (message_header_raw type m extend ++ s) lo hi)

  second_turn :
      turn map (at_status basic message_header) (message_header_raw type m extend ++ s) size size
      ≡ continue
          (at_status (with_message type basic m) extended_timestamp)
          (extended_tail extend m.timestamp ++ s)
          (size + msg_size type)
          (msg_size type)
  unfolding turn
  second_turn = rw (parse-message_header_raw type basic m extend s sent refl fits flagged)

  third_turn :
      turn map
        (at_status (with_message type basic m) extended_timestamp)
        (extended_tail extend m.timestamp ++ s)
        (size + msg_size type)
        (msg_size type)
      ≡ return (
          used
            (size + msg_size type + (if extend then 4 else 0))
            (at_status (parsed_header type id m extend) ChunkParser.ParseStatus.completed)
            s)
  unfolding turn
  third_turn = rw (
      parse_extended-tail (find (with_message type basic m).stream_id map) type
        (with_message type basic m) extend m.timestamp s (msg_size type)
        (format_type-with_message type basic m) sent (timestamp-with_message type basic m sent)
        fits.timestamp_fits flagged)

  longer : (a : Bytes) → 0 < length (a ++ s)
  longer a = omega (arith, length-append a s)

  parse_header :
      parse map reset header_bytes
      ≡ used
          (size + msg_size type + (if extend then 4 else 0))
          (at_status (parsed_header type id m extend) ChunkParser.ParseStatus.completed)
          s
  unfolding parse
  parse_header =
      loop-continue map 4 reset 0 0 header_bytes _ _ size size
        (omega (
          arith,
          length-append (get_chunk_basic_header_raw type id)
              (message_header_raw type m extend ++ s),
          longer (message_header_raw type m extend),
        ))
        first_turn
      ∙ loop-continue map 3 (at_status basic message_header) size size
          (message_header_raw type m extend ++ s) _ _ (size + msg_size type) (msg_size type)
          (longer (message_header_raw type m extend)) second_turn
      ∙ loop-return map 2 (at_status (with_message type basic m) extended_timestamp)
          (size + msg_size type) (msg_size type) (extended_tail extend m.timestamp ++ s) _
          (longer (extended_tail extend m.timestamp)) third_turn

header_size_eq :
    (type : ChunkType) (id : ℕ) (extend : Bool)
    → type ≢ t3
    → get_basic_header_size_by_chunk_stream_id id + msg_size type + (if extend then 4 else 0)
      ≡ basic_header_raw_size id + message_header_raw_size type extend
unfolding message_header_raw_size
header_size_eq t0 id extend ne = omega (arith, basic_header_raw_size_eq id)
header_size_eq t1 id extend ne = omega (arith, basic_header_raw_size_eq id)
header_size_eq t2 id extend ne = omega (arith, basic_header_raw_size_eq id)
header_size_eq t3 id extend ne = absurd (ne refl)

-- Whatever header of type 0, 1 or 2 the exporter writes, on a stream id from 2 to 65599 and with
-- fields that fit the wire, a fresh parser takes exactly its bytes in one call and ends with the
-- type, id and fields that were written, while at least a byte follows.
pub parse-get_chunk_header_raw :
    (map : ChunkMap) (h : ChunkHeader) (s : Bytes)
    → h.format_type ≢ t3
    → 2 ≤ h.stream_id
    → h.stream_id < 65600
    → Fits h.header
    → Flagged h.header h.is_extended
    → 0 < length s
    → parse map reset (get_chunk_header_raw h h.is_extended ++ s)
      ≡ used
          (chunk_header_raw_size h h.is_extended)
          (at_status
            (parsed_header h.format_type h.stream_id h.header h.is_extended)
            ChunkParser.ParseStatus.completed)
          s
unfolding get_chunk_header_raw chunk_header_raw_size
parse-get_chunk_header_raw map h s sent lo hi fits flagged more =
    let basic = get_chunk_basic_header_raw h.format_type h.stream_id in
    ap (parse map reset)
      (append_assoc basic (message_header_raw h.format_type h.header h.is_extended) s)
    ∙ parse_header map h.format_type h.stream_id h.header h.is_extended s sent lo hi fits flagged
        more
    ∙ ap
        (λ n.
          used n
            (at_status (parsed_header h.format_type h.stream_id h.header h.is_extended)
              ChunkParser.ParseStatus.completed)
            s)
        (header_size_eq h.format_type h.stream_id h.is_extended sent)
