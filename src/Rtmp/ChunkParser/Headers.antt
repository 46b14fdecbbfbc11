-- ===== src/Rtmp/ChunkParser/Headers.antt =====
-- The parser reads the headers that rtmp_mux_util.cpp writes.
use media_engine.Base.{
  ℕ, bit_and, bit_or, refl, inl, inr, Bool, true, false, Option, [], arith, leb, leb→le, Bool-cases,
  ◌+◌, ◌*◌, ◌%◌, ◌^◌, ◌≤◌, ◌<◌, ◌≡◌, ◌∙◌, ◌≢◌, ◌||◌, ◌∷◌, ◌++◌, if◌then◌else◌,
}
use media_engine.Base.Bytes.{Bytes, be32}
use media_engine.Base.Masks.{agree, agree_at}
use media_engine.Rtmp.Header.{
  ChunkType, t0, t1, t2, t3, type_bits, msg_size, ChunkHeader, MessageHeader,
}
use media_engine.Rtmp.MuxUtil.{
  extend_timestamp, get_basic_header_size_by_chunk_stream_id, get_chunk_basic_header_raw,
  message_header_raw,
}
use media_engine.Rtmp.ChunkParser.{
  completed, get_chunk_type, get_basic_header_size, parse_basic_header, parse_message_header,
  parse_extended_timestamp,
}

abbrev first_byte : ChunkType → ℕ → ℕ
first_byte type x = bit_or x (bit_and (type_bits type) 0xc0)

first_byte_id : (type : ChunkType) (x : ℕ) → x < 64 → bit_and (first_byte type x) 0x3f ≡ x
first_byte_id t0 = agree_at _ (λ x. x) 64 (unfold agree in refl)
first_byte_id t1 = agree_at _ (λ x. x) 64 (unfold agree in refl)
first_byte_id t2 = agree_at _ (λ x. x) 64 (unfold agree in refl)
first_byte_id t3 = agree_at _ (λ x. x) 64 (unfold agree in refl)

first_byte_bits :
    (type : ChunkType) (x : ℕ) → x < 64 → bit_and (first_byte type x) 0xc0 ≡ type_bits type
first_byte_bits t0 = agree_at _ (λ x. 0x00) 64 (unfold agree in refl)
first_byte_bits t1 = agree_at _ (λ x. 0x40) 64 (unfold agree in refl)
first_byte_bits t2 = agree_at _ (λ x. 0x80) 64 (unfold agree in refl)
first_byte_bits t3 = agree_at _ (λ x. 0xc0) 64 (unfold agree in refl)

type_of_bits :
    (type : ChunkType) (b : ℕ) → bit_and b 0xc0 ≡ type_bits type → get_chunk_type b ≡ type
unfolding get_chunk_type
type_of_bits t0 b e = rw e
type_of_bits t1 b e = rw e
type_of_bits t2 b e = rw e
type_of_bits t3 b e = rw e

-- What a basic header tells: the chunk type, its own size and the stream id.
abbrev pub with_basic : ChunkHeader → ChunkType → ℕ → ChunkHeader
with_basic h type id = record h {
  format_type = type;
  basic_header_size = get_basic_header_size_by_chunk_stream_id id;
  stream_id = id;
}

basic_one :
    (type : ChunkType) (b id : ℕ) (h : ChunkHeader) (s : Bytes)
    → 2 ≤ id
    → id < 64
    → bit_and b 0x3f ≡ id
    → get_chunk_type b ≡ type
    → parse_basic_header h (b ∷ s)
      ≡ completed (with_basic h type id) s (get_basic_header_size_by_chunk_stream_id id)
unfolding parse_basic_header get_basic_header_size get_basic_header_size_by_chunk_stream_id
basic_one type b id h s lo hi e et = ground arith

basic_two :
    (type : ChunkType) (b c id : ℕ) (h : ChunkHeader) (s : Bytes)
    → 64 ≤ id
    → id < 320
    → bit_and b 0x3f ≡ 0
    → get_chunk_type b ≡ type
    → c + 64 ≡ id
    → parse_basic_header h (b ∷ c ∷ s)
      ≡ completed (with_basic h type id) s (get_basic_header_size_by_chunk_stream_id id)
unfolding parse_basic_header get_basic_header_size get_basic_header_size_by_chunk_stream_id
basic_two type b c id h s lo hi e et ec = ground arith

basic_three :
    (type : ChunkType) (b c d id : ℕ) (h : ChunkHeader) (s : Bytes)
    → 320 ≤ id
    → bit_and b 0x3f ≡ 1
    → get_chunk_type b ≡ type
    → c + 64 + d * 256 ≡ id
    → parse_basic_header h (b ∷ c ∷ d ∷ s)
      ≡ completed (with_basic h type id) s (get_basic_header_size_by_chunk_stream_id id)
unfolding parse_basic_header get_basic_header_size get_basic_header_size_by_chunk_stream_id
basic_three type b c d id h s lo e et ec = ground arith

-- The parser reads back the basic header of every stream id from 2 to 65599, and nothing behind it.
pub parse-basic_header_raw :
    (h : ChunkHeader) (type : ChunkType) (id : ℕ) (s : Bytes)
    → 2 ≤ id
    → id < 65600
    → parse_basic_header h (get_chunk_basic_header_raw type id ++ s)
      ≡ completed (with_basic h type id) s (get_basic_header_size_by_chunk_stream_id id)
unfolding get_chunk_basic_header_raw
parse-basic_header_raw h type id s lo hi = elim (Bool-cases (leb 320 id)) [
  | inl three ↦ rw three (
      basic_three type (first_byte type 1) _ _ id h s (leb→le _ _ three)
        (first_byte_id type 1 (omega arith))
        (type_of_bits type _ (first_byte_bits type 1 (omega arith)))
        (omega (arith, leb→le _ _ three)))
  | inr few ↦ elim (Bool-cases (leb 64 id)) [
    | inl two ↦
        rw (few, two)
          (basic_two type (first_byte type 0) _ id h s (leb→le _ _ two) (ground arith)
            (first_byte_id type 0 (omega arith))
            (type_of_bits type _ (first_byte_bits type 0 (omega arith))) (ground arith))
    | inr one ↦
        rw (few, one)
          (basic_one type (first_byte type (id % 64)) id h s lo (ground arith)
            (first_byte_id type (id % 64) (omega arith) ∙ ground arith)
            (type_of_bits type _ (first_byte_bits type (id % 64) (omega arith))))
  ]
]

-- What a message header of a type tells, in place of the fields that it does not send.
abbrev pub with_message : ChunkType → ChunkHeader → MessageHeader → ChunkHeader
with_message t0 h m = record h { message_header_size = 11; header = m; payload_size = m.length }
with_message t1 h m =
    let old = h.header in
    record h {
      message_header_size = 7;
      header = record m { stream_id = old.stream_id };
      payload_size = m.length;
    }
with_message t2 h m =
    let old = h.header in
    record h {
      message_header_size = 3;
      header = record old { timestamp = m.timestamp };
      payload_size = 0;
    }
with_message t3 h m = record h { payload_size = 0 }

-- The bounds of the fields on the wire.
pub record Fits (m : MessageHeader) : Type 0 where
  pub timestamp_fits : m.timestamp < 2 ^ 24
  pub length_fits : m.length < 2 ^ 24
  pub type_id_fits : m.type_id < 256
  pub stream_id_fits : m.stream_id < 2 ^ 32

-- The timestamp field says that an extended timestamp follows exactly when the flag is set.
abbrev pub Flagged : MessageHeader → Bool → Type 0
Flagged m extend = extend ≡ leb extend_timestamp m.timestamp

abbrev pub extended_tail : Bool → ℕ → Bytes
extended_tail extend ts = if extend then be32 ts else []

parse-type_0 :
    (h : ChunkHeader) (m : MessageHeader) (extend : Bool) (s : Bytes)
    → h.format_type ≡ t0
    → Fits m
    → Flagged m extend
    → parse_message_header h (message_header_raw t0 m extend ++ s)
      ≡ completed (with_message t0 h m) (extended_tail extend m.timestamp ++ s) 11
unfolding parse_message_header message_header_raw
parse-type_0 h m true s e f g = ground arith
parse-type_0 h m false s e f g = ground arith

parse-type_1 :
    (h : ChunkHeader) (m : MessageHeader) (extend : Bool) (s : Bytes)
    → h.format_type ≡ t1
    → Fits m
    → Flagged m extend
    → parse_message_header h (message_header_raw t1 m extend ++ s)
      ≡ completed (with_message t1 h m) (extended_tail extend m.timestamp ++ s) 7
unfolding parse_message_header message_header_raw
parse-type_1 h m true s e f g = ground arith
parse-type_1 h m false s e f g = ground arith

parse-type_2 :
    (h : ChunkHeader) (m : MessageHeader) (extend : Bool) (s : Bytes)
    → h.format_type ≡ t2
    → Fits m
    → Flagged m extend
    → parse_message_header h (message_header_raw t2 m extend ++ s)
      ≡ completed (with_message t2 h m) (extended_tail extend m.timestamp ++ s) 3
unfolding parse_message_header message_header_raw
parse-type_2 h m true s e f g = ground arith
parse-type_2 h m false s e f g = ground arith

-- The header once its extended timestamp is read, if it has one.
abbrev pub with_extended : Bool → ℕ → ChunkHeader → ChunkHeader
with_extended extend ts h = record h {
  extended_timestamp = if extend then ts else h.extended_timestamp;
  is_extended = extend || h.is_extended;
}

pub parse_extended-tail :
    (last : Option ChunkHeader) (type : ChunkType) (h : ChunkHeader) (extend : Bool) (ts : ℕ)
    (s : Bytes) (parsed : ℕ)
    → h.format_type ≡ type
    → type ≢ t3
    → h.header.timestamp ≡ ts
    → ts < 2 ^ 24
    → extend ≡ leb extend_timestamp ts
    → parse_extended_timestamp last h (extended_tail extend ts ++ s) parsed
      ≡ completed (with_extended extend ts h) s (if extend then 4 else 0)
unfolding parse_extended_timestamp
parse_extended-tail last t0 h true ts s parsed ef ne et b g = ground arith
parse_extended-tail last t0 h false ts s parsed ef ne et b g = ground arith
parse_extended-tail last t1 h true ts s parsed ef ne et b g = ground arith
parse_extended-tail last t1 h false ts s parsed ef ne et b g = ground arith
parse_extended-tail last t2 h true ts s parsed ef ne et b g = ground arith
parse_extended-tail last t2 h false ts s parsed ef ne et b g = ground arith
parse_extended-tail last t3 h extend ts s parsed ef ne et b g = absurd (ne refl)

pub parse-message_header_raw :
    (type : ChunkType) (h : ChunkHeader) (m : MessageHeader) (extend : Bool) (s : Bytes)
    → type ≢ t3
    → h.format_type ≡ type
    → Fits m
    → Flagged m extend
    → parse_message_header h (message_header_raw type m extend ++ s)
      ≡ completed (with_message type h m) (extended_tail extend m.timestamp ++ s) (msg_size type)
parse-message_header_raw t0 h m extend s ne e f g = parse-type_0 h m extend s e f g
parse-message_header_raw t1 h m extend s ne e f g = parse-type_1 h m extend s e f g
parse-message_header_raw t2 h m extend s ne e f g = parse-type_2 h m extend s e f g
parse-message_header_raw t3 h m extend s ne e f g = absurd (ne refl)
