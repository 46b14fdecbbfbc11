-- ===== src/Rtmp/ChunkParser/Safety.antt =====
-- The header parser on any input, whole or cut anywhere.
use media_engine.Base.{
  ℕ, refl, sym, inl, inr, Option, none, some, [], arith, leb, leb→le, Bool-cases, length, ◌+◌, ◌*◌,
  ◌≤◌, ◌≡◌, ◌∙◌, ◌≢◌, ◌∷◌, ◌==◌,
}
use media_engine.Base.Bytes.{Bytes}
use media_engine.Rtmp.Header.{ChunkType, t0, t1, t2, t3, ChunkHeader}
use media_engine.Rtmp.MuxUtil.{extend_timestamp}
use media_engine.Rtmp.ChunkParser.{
  ParseResult, need_more_data, failed, Reader, read8, read_be24, read_be32, read_le32,
  get_basic_header_size, parse_basic_header, parse_message_header, parse_extended_timestamp,
  read_type_0, read_type_1, read_type_2, read_extended, parse_message_header_of,
  parse_extended_timestamp_of,
}

-- The result `r` of a step over `s`: no crash, no failure, and `parsed_bytes` is what was taken.
-- A header that waits keeps `P`, and one that is complete has `Q`.
abbrev pub Takes :
    (ChunkHeader → Type 0) → (ChunkHeader → ℕ → Type 0) → Bytes → ParseResult → Type 0
Takes P Q s (need_more_data h) = P h
Takes P Q s (ParseResult.completed h s' n) = Q h n × (length s' + n ≡ length s)
Takes P Q s failed = ⊥
Takes P Q s ParseResult.crash = ⊥

abbrev pub AnyHeader : ChunkHeader → Type 0
AnyHeader h = Unit

-- A type 3 header in the making has no message header.
abbrev pub NoMessage : ChunkHeader → Type 0
NoMessage h = h.format_type ≡ t3 → h.message_header_size ≡ 0

abbrev pub NoMessageYet : ChunkHeader → ℕ → Type 0
NoMessageYet h n = h.message_header_size ≡ 0

-- Nothing was taken for a header of type 3.
abbrev pub NothingTaken : ChunkHeader → ℕ → Type 0
NothingTaken h n = h.format_type ≡ t3 → n ≡ 0

basic_header_size_bounds : (b : ℕ) → (1 ≤ get_basic_header_size b) × (get_basic_header_size b ≤ 3)
unfolding get_basic_header_size
basic_header_size_bounds b = ground arith

pub parse_basic_header-Takes :
    (h : ChunkHeader) (s : Bytes)
    → h.message_header_size ≡ 0
    → Takes AnyHeader NoMessageYet s (parse_basic_header h s)
unfolding parse_basic_header
parse_basic_header-Takes h [] e = ground arith
parse_basic_header-Takes h (a ∷ []) e = ground (arith, basic_header_size_bounds a)
parse_basic_header-Takes h (a ∷ b ∷ []) e = ground (arith, basic_header_size_bounds a)
parse_basic_header-Takes h (a ∷ b ∷ c ∷ s) e = ground (arith, basic_header_size_bounds a)

-- A reader that takes `n` bytes where there are so many.
abbrev Reads : Reader → ℕ → Type 0
Reads r n =
    (s : Bytes)
    → n ≤ length s
    → (v : ℕ) × (s' : Bytes) × (r s ≡ some (v, s')) × (length s' + n ≡ length s)

read8-Reads : Reads read8 1
unfolding read8
read8-Reads [] h = elim h [ ]
read8-Reads (a ∷ s) h = (a, s, refl, omega arith)

read_be24-Reads : Reads read_be24 3
unfolding read_be24
read_be24-Reads [] h = elim h [ ]
read_be24-Reads (a ∷ []) h = absurd (omega arith)
read_be24-Reads (a ∷ b ∷ []) h = absurd (omega arith)
read_be24-Reads (a ∷ b ∷ c ∷ s) h = (a * 65536 + b * 256 + c, s, refl, omega arith)

read_be32-Reads : Reads read_be32 4
unfolding read_be32
read_be32-Reads [] h = elim h [ ]
read_be32-Reads (a ∷ []) h = absurd (omega arith)
read_be32-Reads (a ∷ b ∷ []) h = absurd (omega arith)
read_be32-Reads (a ∷ b ∷ c ∷ []) h = absurd (omega arith)
read_be32-Reads (a ∷ b ∷ c ∷ d ∷ s) h =
    (a * 16777216 + b * 65536 + c * 256 + d, s, refl, omega arith)

read_le32-Reads : Reads read_le32 4
unfolding read_le32
read_le32-Reads [] h = elim h [ ]
read_le32-Reads (a ∷ []) h = absurd (omega arith)
read_le32-Reads (a ∷ b ∷ []) h = absurd (omega arith)
read_le32-Reads (a ∷ b ∷ c ∷ []) h = absurd (omega arith)
read_le32-Reads (a ∷ b ∷ c ∷ d ∷ s) h =
    (a + b * 256 + c * 65536 + d * 16777216, s, refl, omega arith)

module _ (type : ChunkType) (h : ChunkHeader) (s : Bytes) (f : h.format_type ≡ type)
    (ne : type ≢ t3) where
  other_type : h.format_type ≢ t3
  other_type e = ne (sym f ∙ e)

  read_type_0-Takes : 11 ≤ length s → Takes NoMessage NothingTaken s (read_type_0 h s)
  unfolding read_type_0
  read_type_0-Takes e =
      let (ts, s₁, e₁, l₁) = read_be24-Reads s (omega arith) in
      let (len, s₂, e₂, l₂) = read_be24-Reads s₁ (omega arith) in
      let (ty, s₃, e₃, l₃) = read8-Reads s₂ (omega arith) in
      let (id, s₄, e₄, l₄) = read_le32-Reads s₃ (omega arith) in
      rw (e₁, e₂, e₃, e₄) ((λ p. absurd (other_type p)), omega arith)

  read_type_1-Takes : 7 ≤ length s → Takes NoMessage NothingTaken s (read_type_1 h s)
  unfolding read_type_1
  read_type_1-Takes e =
      let (ts, s₁, e₁, l₁) = read_be24-Reads s (omega arith) in
      let (len, s₂, e₂, l₂) = read_be24-Reads s₁ (omega arith) in
      let (ty, s₃, e₃, l₃) = read8-Reads s₂ (omega arith) in
      rw (e₁, e₂, e₃) ((λ p. absurd (other_type p)), omega arith)

  read_type_2-Takes : 3 ≤ length s → Takes NoMessage NothingTaken s (read_type_2 h s)
  unfolding read_type_2
  read_type_2-Takes e =
      let (ts, s₁, e₁, l₁) = read_be24-Reads s (omega arith) in
      rw e₁ ((λ p. absurd (other_type p)), omega arith)

parse_message_header_of-Takes :
    (type : ChunkType) (h : ChunkHeader) (s : Bytes)
    → h.format_type ≡ type
    → NoMessage h
    → Takes NoMessage NothingTaken s (parse_message_header_of type h s)
unfolding parse_message_header_of
parse_message_header_of-Takes t0 h s f c = elim (Bool-cases (leb 11 (length s))) [
  | inl enough ↦ rw enough (
      read_type_0-Takes t0 (record h { message_header_size = 11 }) s f (λ p. cc)
        (leb→le _ _ enough))
  | inr short ↦ rw short (λ p. cc)
]
parse_message_header_of-Takes t1 h s f c = elim (Bool-cases (leb 7 (length s))) [
  | inl enough ↦ rw enough (
      read_type_1-Takes t1 (record h { message_header_size = 7 }) s f (λ p. cc) (leb→le _ _ enough))
  | inr short ↦ rw short (λ p. cc)
]
parse_message_header_of-Takes t2 h s f c = elim (Bool-cases (leb 3 (length s))) [
  | inl enough ↦ rw enough (
      read_type_2-Takes t2 (record h { message_header_size = 3 }) s f (λ p. cc) (leb→le _ _ enough))
  | inr short ↦ rw short (λ p. cc)
]
parse_message_header_of-Takes t3 h s f c = (c, omega (arith, c f))

-- The extended timestamp, on its own or absent; `parsed` is 0 for type 3.
abbrev pub AnyCount : ChunkHeader → ℕ → Type 0
AnyCount h n = Unit

read_extended-Takes :
    (target : ℕ) (h : ChunkHeader) (s : Bytes)
    → Takes AnyHeader AnyCount s (read_extended target h s)
unfolding read_extended
read_extended-Takes target h s = elim (Bool-cases (target == extend_timestamp)) [
  | inl extended ↦ elim (Bool-cases (leb 4 (length s))) [
    | inl enough ↦
        let (ts, s₁, e₁, l₁) = read_be32-Reads s (leb→le _ _ enough) in
        rw (extended, enough, e₁) (tt, l₁)
    | inr short ↦ rw (extended, short) tt
  ]
  | inr plain ↦ rw plain (tt, omega arith)
]

parse_extended_timestamp_of-Takes :
    (type : ChunkType) (last : Option ChunkHeader) (h : ChunkHeader) (s : Bytes) (parsed : ℕ)
    → (type ≡ t3 → parsed ≡ 0)
    → Takes AnyHeader AnyCount s (parse_extended_timestamp_of type last h s parsed)
unfolding parse_extended_timestamp_of
parse_extended_timestamp_of-Takes t3 none h s parsed e = (tt, omega (arith, e refl))
parse_extended_timestamp_of-Takes t3 (some l) h s parsed e = elim (Bool-cases l.is_extended) [
  | inl extended ↦ rw extended (read_extended-Takes extend_timestamp h s)
  | inr plain ↦ rw plain (tt, omega (arith, e refl))
]
parse_extended_timestamp_of-Takes t0 last h s parsed e = read_extended-Takes h.header.timestamp h s
parse_extended_timestamp_of-Takes t1 last h s parsed e = read_extended-Takes h.header.timestamp h s
parse_extended_timestamp_of-Takes t2 last h s parsed e = read_extended-Takes h.header.timestamp h s

pub parse_message_header-Takes :
    (h : ChunkHeader) (s : Bytes)
    → NoMessage h
    → Takes NoMessage NothingTaken s (parse_message_header h s)
unfolding parse_message_header
parse_message_header-Takes h s c = parse_message_header_of-Takes h.format_type h s refl c

pub parse_extended_timestamp-Takes :
    (last : Option ChunkHeader) (h : ChunkHeader) (s : Bytes) (parsed : ℕ)
    → NothingTaken h parsed
    → Takes AnyHeader AnyCount s (parse_extended_timestamp last h s parsed)
unfolding parse_extended_timestamp
parse_extended_timestamp-Takes last h s parsed e =
    parse_extended_timestamp_of-Takes h.format_type last h s parsed e
