-- ===== src/Rtmp/ChunkParser.antt =====
-- common/src/media/rtmp/rtmp_chunk_parser.cpp: the state machine that reads a chunk's header.
-- A read-only `ov::ByteStream` is the bytes that remain in it.
pub mod Headers
pub mod Safety
pub mod Totality
pub mod RoundTrip
use media_engine.Base.{
  ℕ, zero, suc, bit_and, Bool, true, false, not, Option, none, some, List, [], leb, length, ◌+◌,
  ◌-◌, ◌*◌, ◌∷◌, ◌==◌, if◌then◌else◌,
}
use media_engine.Base.Bytes.{Bytes}
use media_engine.Rtmp.Header.{
  ChunkType, t0, t1, t2, t3, msg_size, ChunkHeader, new_chunk_header, recalculate_header_size,
}
use media_engine.Rtmp.MuxUtil.{extend_timestamp}

pub data ParseStatus : Type 0 where
  basic_header message_header extended_timestamp completed : ParseStatus

-- `_current_chunk_header` is null before the first chunk and after `Reset`.
pub record ChunkParser : Type 0 where
  pub current : Option ChunkHeader
  pub status : ParseStatus

-- The header that each stream id had last, `_chunk_map`.
abbrev pub ChunkMap : Type 0
ChunkMap = List (ℕ × ChunkHeader)

unfoldable pub find : ℕ → ChunkMap → Option ChunkHeader
find k [] = none
find k ((j, h) ∷ m) = if j == k then some h else find k m

unfoldable pub assign : ℕ → ChunkHeader → ChunkMap → ChunkMap
assign k v [] = (k, v) ∷ []
assign k v ((j, w) ∷ m) = if j == k then (k, v) ∷ m else (j, w) ∷ assign k v m

-- What one parsing step did: the header written so far, the stream behind what was read, and
-- `*parsed_bytes`. `crash` is a null pointer dereferenced; a read past the end gives one.
pub data ParseResult : Type 0 where
  need_more_data : ChunkHeader → ParseResult
  completed : ChunkHeader → Bytes → ℕ → ParseResult
  failed crash : ParseResult

-- `ByteStream::Read8`, `ReadBE24`, `ReadBE32`, `ReadLE32`: `none` where `Read<T>()` is null.
abbrev pub Reader : Type 0
Reader = Bytes → Option (ℕ × Bytes)

pub read8 : Reader
read8 (a ∷ s) = some (a, s)
read8 _ = none

pub read_be24 : Reader
read_be24 (a ∷ b ∷ c ∷ s) = some (a * 65536 + b * 256 + c, s)
read_be24 _ = none

pub read_be32 : Reader
read_be32 (a ∷ b ∷ c ∷ d ∷ s) = some (a * 16777216 + b * 65536 + c * 256 + d, s)
read_be32 _ = none

pub read_le32 : Reader
read_le32 (a ∷ b ∷ c ∷ d ∷ s) = some (a + b * 256 + c * 65536 + d * 16777216, s)
read_le32 _ = none

-- Read a value and go on with it.
abbrev pub with_read : Option (ℕ × Bytes) → (ℕ → Bytes → ParseResult) → ParseResult
with_read none k = crash
with_read (some (v, s)) k = k v s

abbrev pub is_remained : Bytes → ℕ → Bool
is_remained s n = leb n (length s)

unfoldable pub get_chunk_type : ℕ → ChunkType
get_chunk_type b =
    let bits = bit_and b 0xc0 in
    if bits == 0x00 then t0 else if bits == 0x40 then t1 else if bits == 0x80 then t2 else t3

unfoldable pub get_basic_header_size : ℕ → ℕ
get_basic_header_size b = let id = bit_and b 0x3f in if id == 0 then 2 else if id == 1 then 3 else 1

unfoldable pub parse_basic_header : ChunkHeader → Bytes → ParseResult
unfolding read8
parse_basic_header h s =
    if not (is_remained s 1)
    then need_more_data h
    else with_read (read8 s) (λ b s₁.
      let size = get_basic_header_size b in
      let h₁ = record h { format_type = get_chunk_type b; basic_header_size = size } in
      if not (is_remained s₁ (size - 1))
      then need_more_data h₁
      else if size == 1
      then completed (record h₁ { stream_id = bit_and b 0x3f }) s₁ size
      else with_read (read8 s₁) (λ b₁ s₂.
        if size == 2
        then completed (record h₁ { stream_id = b₁ + 64 }) s₂ size
        else with_read (read8 s₂)
            (λ b₂ s₃. completed (record h₁ { stream_id = b₁ + 64 + b₂ * 256 }) s₃ size)))

-- The fields that the types 0, 1 and 2 read. What a type does not send keeps its value.
read_type_0 : ChunkHeader → Bytes → ParseResult
unfolding read_be24 read8 read_le32
read_type_0 h s = with_read (read_be24 s) (λ ts s₁. with_read (read_be24 s₁) (λ len s₂.
    with_read (read8 s₂) (λ ty s₃. with_read (read_le32 s₃) (λ id s₄.
      completed
        (record h {
          header = record { timestamp = ts; length = len; type_id = ty; stream_id = id };
          payload_size = len;
        })
        s₄ (msg_size t0)))))

read_type_1 : ChunkHeader → Bytes → ParseResult
unfolding read_be24 read8
read_type_1 h s = with_read (read_be24 s) (λ ts s₁. with_read (read_be24 s₁) (λ len s₂.
    with_read (read8 s₂) (λ ty s₃.
      let m = h.header in
      completed
        (record h {
          header = record m { timestamp = ts; length = len; type_id = ty };
          payload_size = len;
        })
        s₃ (msg_size t1))))

read_type_2 : ChunkHeader → Bytes → ParseResult
unfolding read_be24
read_type_2 h s = with_read (read_be24 s) (λ ts s₁.
    let m = h.header in
    completed (record h { header = record m { timestamp = ts }; payload_size = 0 }) s₁
      (msg_size t2))

parse_message_header_of : ChunkType → ChunkHeader → Bytes → ParseResult
unfolding read_type_0 read_type_1 read_type_2
parse_message_header_of t0 h s =
    let h₁ = record h { message_header_size = msg_size t0 } in
    if not (is_remained s (msg_size t0)) then need_more_data h₁ else read_type_0 h₁ s
parse_message_header_of t1 h s =
    let h₁ = record h { message_header_size = msg_size t1 } in
    if not (is_remained s (msg_size t1)) then need_more_data h₁ else read_type_1 h₁ s
parse_message_header_of t2 h s =
    let h₁ = record h { message_header_size = msg_size t2 } in
    if not (is_remained s (msg_size t2)) then need_more_data h₁ else read_type_2 h₁ s
parse_message_header_of t3 h s =
    completed (record h { payload_size = msg_size t3 }) s h.message_header_size

unfoldable pub parse_message_header : ChunkHeader → Bytes → ParseResult
unfolding parse_message_header_of
parse_message_header h s = parse_message_header_of h.format_type h s

-- The part of `ParseExtendedTimestamp` behind its switch.
read_extended : ℕ → ChunkHeader → Bytes → ParseResult
unfolding read_be32
read_extended target h s =
    if target == extend_timestamp
    then (if not (is_remained s 4)
        then need_more_data h
        else with_read (read_be32 s)
            (λ ts s₁. completed (record h { extended_timestamp = ts; is_extended = true }) s₁ 4))
    else completed h s 0

-- For type 3 the last header of the stream says whether the timestamp is there. Where it says no,
-- `*parsed_bytes` keeps the value it came with.
parse_extended_timestamp_of : ChunkType → Option ChunkHeader → ChunkHeader → Bytes → ℕ → ParseResult
unfolding read_extended
parse_extended_timestamp_of t3 none h s parsed = completed h s parsed
parse_extended_timestamp_of t3 (some last) h s parsed =
    if last.is_extended then read_extended extend_timestamp h s else completed h s parsed
parse_extended_timestamp_of type last h s parsed = read_extended h.header.timestamp h s

unfoldable pub parse_extended_timestamp : Option ChunkHeader → ChunkHeader → Bytes → ℕ → ParseResult
unfolding parse_extended_timestamp_of
parse_extended_timestamp last h s parsed = parse_extended_timestamp_of h.format_type last h s parsed

-- `Parse` returns an off_t: below 0 for `error`. `stuck` is the loop out of fuel.
pub data ParseReturn : Type 0 where
  used : ℕ → ChunkParser → Bytes → ParseReturn
  error : ChunkParser → ParseReturn
  crash stuck : ParseReturn

-- One round of the loop: a return, or the parser, stream, `total_parsed_bytes` and `parsed_bytes`
-- for the next round.
pub data Turn : Type 0 where
  return : ParseReturn → Turn
  continue : ChunkParser → Bytes → ℕ → ℕ → Turn

abbrev pub at_status : ChunkHeader → ParseStatus → ChunkParser
at_status h st = record { current = some h; status = st }

-- `case ParseStatus::BasicHeader`
basic_header_turn : Bytes → ParseResult → Turn
basic_header_turn s (need_more_data h) = return (used 0 (at_status h basic_header) s)
basic_header_turn s (completed h s' n) = continue (at_status h message_header) s' n n
basic_header_turn s failed = return (error (record { current = none; status = basic_header }))
basic_header_turn s crash = return crash

-- `case ParseStatus::MessageHeader`
message_header_turn : Bytes → ℕ → ParseResult → Turn
message_header_turn s total (need_more_data h) = return (used total (at_status h message_header) s)
message_header_turn s total (completed h s' n) =
    continue (at_status h extended_timestamp) s' (total + n) n
message_header_turn s total failed =
    return (error (record { current = none; status = message_header }))
message_header_turn s total crash = return crash

-- `case ParseStatus::ExtendedTimestamp`
extended_timestamp_turn : Bytes → ℕ → ParseResult → Turn
extended_timestamp_turn s total (need_more_data h) =
    return (used total (at_status h extended_timestamp) s)
extended_timestamp_turn s total (completed h s' n) =
    return (used (total + n) (at_status (recalculate_header_size h) completed) s')
extended_timestamp_turn s total failed =
    return (error (record { current = none; status = extended_timestamp }))
extended_timestamp_turn s total crash = return crash

turn_at : ParseStatus → ChunkMap → Option ChunkHeader → Bytes → ℕ → ℕ → Turn
unfolding basic_header_turn message_header_turn extended_timestamp_turn
turn_at basic_header m p s total parsed =
    basic_header_turn s (parse_basic_header new_chunk_header s)
turn_at completed m p s total parsed =
    continue (record { current = p; status = basic_header }) s total parsed
turn_at message_header m none s total parsed = return crash
turn_at message_header m (some h) s total parsed =
    message_header_turn s total (parse_message_header h s)
turn_at extended_timestamp m none s total parsed = return crash
turn_at extended_timestamp m (some h) s total parsed =
    extended_timestamp_turn s total (parse_extended_timestamp (find h.stream_id m) h s parsed)

unfoldable pub turn : ChunkMap → ChunkParser → Bytes → ℕ → ℕ → Turn
unfolding turn_at
turn m p s total parsed = turn_at p.status m p.current s total parsed

unfoldable pub parse_loop : ℕ → ChunkMap → ChunkParser → Bytes → ℕ → ℕ → ParseReturn
parse_loop zero m p s total parsed = stuck
parse_loop (suc fuel) m p [] total parsed = used total p []
parse_loop (suc fuel) m p (b ∷ s) total parsed = elim (turn m p (b ∷ s) total parsed) [
  | return r ↦ r
  | continue p' s' total' parsed' ↦ parse_loop fuel m p' s' total' parsed'
]

-- A round that goes on moves to the next status, so four rounds and the last test are enough.
unfoldable pub parse : ChunkMap → ChunkParser → Bytes → ParseReturn
parse m p s = parse_loop 5 m p s 0 0

abbrev pub is_parse_completed : ChunkParser → Bool
is_parse_completed p = elim p.status [ completed ↦ true | _ ↦ false ]

-- `Reset`
abbrev pub reset : ChunkParser
reset = record { current = none; status = basic_header }

abbrev pub get_parsed_chunk_header : ChunkParser → Option ChunkHeader
get_parsed_chunk_header p = if is_parse_completed p then p.current else none
