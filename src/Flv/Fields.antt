-- ===== src/Flv/Fields.antt =====
-- What the parsers read, field by field.
use media_engine.Base.{
  ℕ, refl, sym, ap, inl, inr, not, Option, none, some, [], arith, ltb, le→ltb, ==_iff, Bool-cases,
  length, All, ◌+◌, ◌-◌, ◌*◌, ◌/◌, ◌%◌, ◌^◌, ◌<◌, ◌≡◌, ◌∙◌, ◌∷◌, ◌==◌, if◌then◌else◌,
}
use media_engine.Base.Bytes.{Bytes, IsByte}
use media_engine.Nalu.ReadBits.{
  value_of, read_bits, bits_loop, bits_from_this_byte, advance, take_in, read_byte, byte_of,
}
use media_engine.Flv.{FlvVideoData, FlvAudioData, Parsed, rejected, parsed, or_zero, parse_video}

high_nibble :
    (a : ℕ) (s : Bytes)
    → IsByte a
    → read_bits 8 4 (record { remaining = a ∷ s; bit_offset = 0 })
      ≡ value_of (a / 16) (record { remaining = a ∷ s; bit_offset = 4 })
unfolding read_bits bits_loop bits_from_this_byte advance take_in
high_nibble a s ha =
    rw (le→ltb (length (a ∷ s)) 1 (omega arith))
      (ap (λ v. value_of v (record { remaining = a ∷ s; bit_offset = 4 })) (omega arith))

low_nibble :
    (a : ℕ) (s : Bytes)
    → IsByte a
    → read_bits 8 4 (record { remaining = a ∷ s; bit_offset = 4 })
      ≡ value_of (a % 16) (record { remaining = s; bit_offset = 0 })
unfolding read_bits bits_loop bits_from_this_byte advance take_in
low_nibble a s ha =
    rw (le→ltb (length (a ∷ s)) 1 (omega arith))
      (ap (λ v. value_of v (record { remaining = s; bit_offset = 0 })) (omega arith))

three_bytes :
    (c d e : ℕ) (s : Bytes)
    → IsByte c
    → IsByte d
    → IsByte e
    → read_bits 32 24 (record { remaining = c ∷ d ∷ e ∷ s; bit_offset = 0 })
      ≡ value_of (c * 65536 + d * 256 + e) (record { remaining = s; bit_offset = 0 })
unfolding read_bits bits_loop bits_from_this_byte advance take_in
three_bytes c d e s hc hd he =
    rw (le→ltb (length (c ∷ d ∷ e ∷ s)) 3 (omega arith))
      (ap (λ v. value_of v (record { remaining = s; bit_offset = 0 })) (omega arith))

-- Integers, as the library's over its own numbers.
pub data ℤ : Type 0 where
  pos negsuc : ℕ → ℤ

-- Three bytes as SI24, in two's complement.
unfoldable pub si24 : ℕ → ℤ
si24 v = if ltb v (2 ^ 23) then pos v else negsuc (2 ^ 24 - 1 - v)

-- A tag of AVC by the layout in flv_parser.h: the composition time is SI24.
pub record VideoTag : Type 0 where
  pub frame_type : ℕ
  pub packet_type : ℕ
  pub composition_time : ℤ
  pub payload : Bytes

unfoldable pub video_tag : Bytes → Option VideoTag
unfolding si24
video_tag (a ∷ b ∷ c ∷ d ∷ e ∷ s) =
    if a % 16 == 7
    then some (record {
      frame_type = a / 16;
      packet_type = b;
      composition_time = si24 (c * 65536 + d * 256 + e);
      payload = s;
    })
    else none
video_tag _ = none

-- An integer in 24 bits without a sign: -1 is 2 ^ 24 - 1.
unfoldable pub without_sign : ℤ → ℕ
without_sign (pos v) = v
without_sign (negsuc v) = 2 ^ 24 - 1 - v

unfoldable pub as_read : Option VideoTag → Parsed FlvVideoData
unfolding without_sign
as_read none = rejected
as_read (some t) = parsed (record {
  frame_type = t.frame_type;
  codec_id = 7;
  packet_type = t.packet_type;
  composition_time = without_sign t.composition_time;
  payload = t.payload;
})

without_sign-si24 : (v : ℕ) → v < 2 ^ 24 → without_sign (si24 v) ≡ v
unfolding without_sign si24
without_sign-si24 v h = elim (Bool-cases (ltb v (2 ^ 23))) [
  | inl small ↦ rw small refl
  | inr large ↦ rw large (omega arith)
]

-- The bytes of a tag of audio, field by field.
unfoldable pub audio_tag : Bytes → Parsed FlvAudioData
audio_tag (a ∷ b ∷ s) = parsed (record {
  format = a / 16;
  sample_rate = a / 4 % 4;
  sample_size = a / 2 % 2;
  channel = a % 2;
  packet_type = b;
  payload = s;
})
audio_tag _ = rejected

same_codec :
    (c v : ℕ) (r : ℕ → ℕ → Parsed FlvVideoData) (t : ℤ → VideoTag)
    → v < 2 ^ 24
    → ((u : ℤ) → as_read (some (t u)) ≡ r 7 (without_sign u))
    → (if not (c == 7) then rejected else r c v)
      ≡ as_read (if c == 7 then some (t (si24 v)) else none)
unfolding as_read
same_codec c v r t small e = elim (Bool-cases (c == 7)) [
  | inl seven ↦ rw seven (
      ap (λ k. r k v) ((==_iff c 7).0 seven)
      ∙ ap (r 7) (sym (without_sign-si24 v small))
      ∙ sym (e (si24 v)))
  | inr other ↦ rw other refl
]

-- `FlvVideoData::Parse` never reads behind its data and reads the tag of the layout but for the
-- sign of the composition time: it rejects less than five bytes and every codec but AVC; else the
-- frame type is the high half of the first byte, the packet type is the second, the payload is what
-- follows the first five bytes, and the composition time is the layout's where that is not negative
-- and 2 ^ 24 more where it is.
pub parse_video-video_tag :
    (bytes : Bytes) → All IsByte bytes → parse_video bytes ≡ as_read (video_tag bytes)
unfolding parse_video video_tag as_read or_zero read_byte byte_of
parse_video-video_tag [] h = refl
parse_video-video_tag (a ∷ []) h = refl
parse_video-video_tag (a ∷ b ∷ []) h = refl
parse_video-video_tag (a ∷ b ∷ c ∷ []) h = refl
parse_video-video_tag (a ∷ b ∷ c ∷ d ∷ []) h = refl
parse_video-video_tag (a ∷ b ∷ c ∷ d ∷ e ∷ s) h =
    let hc = h.1.1.0 in
    let hd = h.1.1.1.0 in
    let he = h.1.1.1.1.0 in
    rw
      (
        le→ltb (length (a ∷ b ∷ c ∷ d ∷ e ∷ s)) 5 (omega arith),
        high_nibble a (b ∷ c ∷ d ∷ e ∷ s) h.0,
        low_nibble a (b ∷ c ∷ d ∷ e ∷ s) h.0,
        three_bytes c d e s hc hd he,
      )
      (same_codec (a % 16) (c * 65536 + d * 256 + e)
        (λ k v. parsed (record {
          frame_type = a / 16;
          codec_id = k;
          packet_type = b;
          composition_time = v;
          payload = s;
        }))
        (λ u. record { frame_type = a / 16; packet_type = b; composition_time = u; payload = s })
        (omega (arith, hc, hd, he)) (λ u. refl))
