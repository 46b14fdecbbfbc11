-- ===== src/Rtmp/ImportChunk.antt =====
-- common/src/media/rtmp/rtmp_import_chunk.cpp: chunks are put together to messages.
-- `_current_chunk_header` and the entry of `_chunk_map` are one object after `Import` has put it
-- there, but nothing writes to it any more, so values serve.
pub mod Blocks
pub mod Rounds
pub mod Totality
pub mod Timestamps
pub mod Empty
pub mod Steps
pub mod Process
pub mod Finalize
use media_engine.Base.{
  ℕ, zero, suc, min, bit_or, Bool, true, false, not, Option, none, some, List, [], ltb, leb, length,
  take, drop, ◌+◌, ◌-◌, ◌*◌, ◌/◌, ◌%◌, ◌^◌, ◌&&◌, ◌∷◌, ◌++◌, ◌==◌, if◌then◌else◌,
}
use media_engine.Base.Bytes.{Bytes}
use media_engine.Rtmp.Header.{
  ChunkType, t0, t1, t2, t3, Completed, ChunkHeader, extended_size, recalculate_header_size,
  Message,
}
use media_engine.Rtmp.ChunkParser.{
  ChunkParser, ChunkMap, find, assign, ParseReturn, parse, is_parse_completed,
  get_parsed_chunk_header, reset,
}
use media_engine.Rtmp.ChunkParser

abbrev pub rtmp_max_packet_size : ℕ
rtmp_max_packet_size = 20 * 1024 * 1024

-- The distance of two numbers, `llabs` of their difference.
abbrev pub distance : ℕ → ℕ → ℕ
distance a b = if ltb a b then b - a else a - b

-- `CalculateRolledTimestamp`, `SERIAL_BITS` is 31.
unfoldable pub calculate_rolled_timestamp : ℕ → ℕ → ℕ
calculate_rolled_timestamp last parsed =
    if leb (distance last parsed) (2 ^ 30 - 1)
    then parsed
    else last + 2 ^ 31 - last % 2 ^ 31 + parsed

-- The switch of `ProcessChunkHeader`, given the accumulated header that is copied.
unfoldable pub complete : ChunkHeader → Option ChunkHeader → Completed → Completed
complete h last prev = elim h.format_type [
  | t0 ↦
      let ts = if h.is_extended then h.extended_timestamp else h.header.timestamp in
      record {
        timestamp_delta = 0;
        timestamp = elim last [
          | none ↦ ts
          | some l ↦ calculate_rolled_timestamp l.completed.timestamp ts
        ];
        length = h.header.length;
        type_id = h.header.type_id;
        stream_id = h.header.stream_id;
      }
  | t1 ↦
      let delta = if h.is_extended then h.extended_timestamp else h.header.timestamp in
      record prev {
        timestamp_delta = delta;
        timestamp = prev.timestamp + delta;
        length = h.header.length;
        type_id = h.header.type_id;
      }
  | t2 ↦
      let delta = if h.is_extended then h.extended_timestamp else h.header.timestamp in
      record prev { timestamp_delta = delta; timestamp = prev.timestamp + delta }
  | t3 ↦ record prev { timestamp = prev.timestamp + prev.timestamp_delta }
]

-- The outcome of a step that may refuse, or stop the process by dividing by 0 or by reading where
-- nothing is. `stuck` is a loop out of fuel, as is one that does not end.
pub data Outcome {ℓ} (A : Type ℓ) : Type ℓ where
  ok : A → Outcome A
  refused crash stuck : Outcome A

-- The type 3 header that is expected between the blocks, four bytes of which
-- `basic_header_size` count. The 3-byte form shifts by 16 before it stores the third byte.
unfoldable pub expected_header : ℕ → ℕ → Option Bytes
expected_header size id =
    if size == 1
    then some (bit_or 0xc0 (id % 64) ∷ 0 ∷ 0 ∷ 0 ∷ [])
    else if size == 2
    then some (0xc0 ∷ ((id + 2 ^ 32 - 64) % 256) ∷ 0 ∷ 0 ∷ [])
    else if size == 3
    then (let rest = (id + 2 ^ 32 - 64) % 2 ^ 32 in
        some (0xc1 ∷ (rest % 256) ∷ (rest / 2 ^ 16 % 256) ∷ 0 ∷ []))
    else none

-- `CalculateForType3Header`: `payload_size - 1` wraps at 32 bits; the quotient is taken at 64 bits
-- and stored in an int, which refuses a value from 2 ^ 31 on as negative.
unfoldable pub calculate_for_type_3_header : ℕ → ChunkHeader → Outcome ChunkHeader
unfolding expected_header
calculate_for_type_3_header chunk_size h = elim (expected_header h.basic_header_size h.stream_id) [
  | none ↦ refused
  | some e ↦
      if chunk_size == 0
      then crash
      else (let count = (h.payload_size + 2 ^ 32 - 1) % 2 ^ 32 / chunk_size in
          let between = h.basic_header_size + extended_size h.is_extended in
          if leb (2 ^ 31) count
          then refused
          else ok (record h {
            expected_type_3_header = e;
            expected_payload_size = (h.payload_size + count * between) % 2 ^ 32;
          }))
]

-- `ProcessChunkHeader`. Where it refuses, what it has written to the header so far is dropped.
process_with : ℕ → ChunkHeader → Option ChunkHeader → Completed → Outcome ChunkHeader
process_with chunk_size h last prev =
    let c = complete h last prev in
    let h₁ = record h { completed = c; message_header_size = 21; payload_size = c.length } in
    if ltb rtmp_max_packet_size c.length
    then refused
    else calculate_for_type_3_header chunk_size (recalculate_header_size h₁)

-- The first chunk of a stream must be of type 0.
unfoldable pub allow_first : ChunkType → Outcome ChunkHeader → Outcome ChunkHeader
allow_first t0 r = r
allow_first _ r = refused

unfoldable pub process_chunk_header : ℕ → ChunkHeader → Option ChunkHeader → Outcome ChunkHeader
unfolding process_with allow_first
process_chunk_header chunk_size h none =
    allow_first h.format_type (process_with chunk_size h none h.completed)
process_chunk_header chunk_size h (some last) = process_with chunk_size h (some last) last.completed

-- `memcmp(a, b, n) == 0` where both have `n` bytes.
unfoldable pub same_bytes : Bytes → Bytes → Bool
same_bytes [] [] = true
same_bytes (x ∷ xs) (y ∷ ys) = x == y && same_bytes xs ys
same_bytes _ _ = false

-- The type 3 header in front of a block: `current` and `left` (the source's `payload_size`)
-- behind it.
unfoldable pub skip_header : Bytes → ℕ → Bool → Bytes → ℕ → Outcome (Bytes × ℕ)
unfolding same_bytes
skip_header expected between first current left =
    if first
    then ok (current, left)
    else if ltb left between
    then refused
    else if ltb (length current) between
    then crash
    else if not (same_bytes (take (length expected) current) expected)
    then refused
    else ok (drop between current, left - between)

-- The loop of `FinalizeMessage`; `out` is the payload so far. A round takes a byte at least off
-- `left`, which bounds the rounds.
unfoldable pub finalize_blocks : ℕ → ℕ → Bytes → ℕ → Bool → Bytes → ℕ → Bytes → Outcome Bytes
unfolding skip_header
finalize_blocks zero chunk_size expected between first current left out = stuck
finalize_blocks (suc fuel) chunk_size expected between first current left out = elim (left == 0) [
  | true ↦ ok out
  | false ↦ elim (skip_header expected between first current left) [
    | refused ↦ refused
    | crash ↦ crash
    | stuck ↦ stuck
    | ok (cur, n) ↦ elim (ltb (length cur) (min chunk_size n)) [
      | true ↦ crash
      | false ↦
          finalize_blocks fuel chunk_size expected between false (drop (min chunk_size n) cur)
            (n - min chunk_size n) (out ++ take (min chunk_size n) cur)
    ]
  ]
]

-- The end of `FinalizeMessage`: the payload must have the announced size.
unfoldable pub deliver : ChunkHeader → Outcome Bytes → Outcome Message
deliver h refused = refused
deliver h crash = crash
deliver h stuck = stuck
deliver h (ok payload) =
    if length payload == h.payload_size
    then ok (record { header = h; payload = payload })
    else refused

-- `FinalizeMessage`. The stream holds `expected_payload_size` bytes at least.
unfoldable pub finalize_message : ℕ → ChunkHeader → Bytes → Outcome Message
unfolding deliver
finalize_message chunk_size h s = deliver h (
    finalize_blocks (suc h.expected_payload_size) chunk_size
      (take h.basic_header_size h.expected_type_3_header)
      (h.basic_header_size + extended_size h.is_extended) true s h.expected_payload_size [])

pub record ImportChunk : Type 0 where
  pub chunk_map : ChunkMap
  pub message_queue : List Message
  pub chunk_size : ℕ
  pub parser : ChunkParser

-- The int that `Import` returns and `*is_completed`; below 0 is `error`.
pub data ImportReturn : Type 0 where
  used : ℕ → Bool → ImportReturn
  error crash stuck : ImportReturn

-- From the test for the payload on.
unfoldable pub import_payload : ImportChunk → ℕ → ChunkHeader → Bytes → ImportChunk × ImportReturn
import_payload c parsed h s =
    if not (leb h.expected_payload_size (length s))
    then (c, used parsed false)
    else elim (finalize_message c.chunk_size h s) [
      | refused ↦ (c, error)
      | crash ↦ (c, crash)
      | stuck ↦ (c, stuck)
      | ok m ↦ (
        record c { message_queue = c.message_queue ++ (m ∷ []); parser = reset },
        used (parsed + h.expected_payload_size) true,
      )
    ]

-- `Import`, once the parser has returned.
unfoldable pub import_parsed : ImportChunk → ParseReturn → ImportChunk × ImportReturn
unfolding import_payload
import_parsed c (ChunkParser.error p) = (record c { parser = p }, error)
import_parsed c ChunkParser.crash = (c, crash)
import_parsed c ChunkParser.stuck = (c, stuck)
import_parsed c (ChunkParser.used parsed p s) =
    let c₁ = record c { parser = p } in
    if not (is_parse_completed p)
    then (c₁, used parsed false)
    else elim (get_parsed_chunk_header p) [
      | none ↦ (c₁, error)
      | some h ↦ elim (process_chunk_header c.chunk_size h (find h.stream_id c.chunk_map)) [
        | refused ↦ (c₁, error)
        | crash ↦ (c₁, crash)
        | stuck ↦ (c₁, stuck)
        | ok h' ↦
            import_payload
              (record c {
                chunk_map = assign h'.stream_id h' c.chunk_map;
                parser = record p { current = some h' };
              })
              parsed h' s
      ]
    ]

-- `Import`: the header first, unless an earlier call has read it and waits for the payload.
unfoldable pub import : ImportChunk → Bytes → ImportChunk × ImportReturn
unfolding import_parsed
import c s =
    if not (is_parse_completed c.parser)
    then import_parsed c (parse c.chunk_map c.parser s)
    else elim (get_parsed_chunk_header c.parser) [
      | none ↦ (c, error)
      | some h ↦ elim (find h.stream_id c.chunk_map) [
        | none ↦ (c, error)
        | some last ↦ import_payload c 0 last s
      ]
    ]

-- `RtmpImportChunk::RtmpImportChunk`, `SetChunkSize`, `GetMessage`, `GetMessageCount`.
abbrev pub new_import_chunk : ℕ → ImportChunk
new_import_chunk n = record { chunk_map = []; message_queue = []; chunk_size = n; parser = reset }

abbrev pub set_chunk_size : ImportChunk → ℕ → ImportChunk
set_chunk_size c n = record c { chunk_size = n }

unfoldable pub dequeue : ImportChunk → List Message → ImportChunk × Option Message
dequeue c [] = (c, none)
dequeue c (m ∷ ms) = (record c { message_queue = ms }, some m)

unfoldable pub get_message : ImportChunk → ImportChunk × Option Message
unfolding dequeue
get_message c = dequeue c c.message_queue

unfoldable pub get_message_count : ImportChunk → ℕ
get_message_count c = length c.message_queue
