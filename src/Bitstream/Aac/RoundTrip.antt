-- ===== src/Bitstream/Aac/RoundTrip.antt =====
-- The two bytes of an AAC configuration.
use media_engine.Base.{
  ℕ, bit_or, refl, ap, [], arith, le→ltb, length, ◌+◌, ◌*◌, ◌/◌, ◌%◌, ◌<◌, ◌≡◌, ◌∙◌, ◌∷◌,
}
use media_engine.Base.Bytes.{Bytes, IsByte}
use media_engine.Nalu.ReadBits.{
  read_bits, bits_loop, bits_from_this_byte, advance, take_in, value_of,
}
use media_engine.Flv.{parsed, or_zero}
use media_engine.Base.Masks.{or_none, or_low_three, or_low_seven}
use media_engine.Bitstream.BitWriter.{or_at, write_loop, write, get_data_size, get_data}
use media_engine.Bitstream.Aac.{
  AacSpecificConfig, parse_aac_config, serialize_aac_config, get_aac_extradata, extradata_of,
}

-- A configuration whose fields have their widths.
pub record IsConfig (config : AacSpecificConfig) : Type 0 where
  pub type_fits : config.object_type < 32
  pub index_fits : config.sampling_frequency_index < 16
  pub channel_fits : config.channel < 16

five_bits :
    (a b : ℕ) (s : Bytes)
    → IsByte a
    → read_bits 8 5 (record { remaining = a ∷ b ∷ s; bit_offset = 0 })
      ≡ value_of (a / 8) (record { remaining = a ∷ b ∷ s; bit_offset = 5 })
unfolding read_bits bits_loop bits_from_this_byte advance take_in
five_bits a b s ha =
    rw (le→ltb (length (a ∷ b ∷ s)) 1 (omega arith))
      (ap (λ v. value_of v (record { remaining = a ∷ b ∷ s; bit_offset = 5 })) (omega arith))

four_across :
    (a b : ℕ) (s : Bytes)
    → IsByte a
    → IsByte b
    → read_bits 8 4 (record { remaining = a ∷ b ∷ s; bit_offset = 5 })
      ≡ value_of (a % 8 * 2 + b / 128) (record { remaining = b ∷ s; bit_offset = 1 })
unfolding read_bits bits_loop bits_from_this_byte advance take_in
four_across a b s ha hb =
    rw (le→ltb (length (a ∷ b ∷ s)) 1 (omega arith))
      (ap (λ v. value_of v (record { remaining = b ∷ s; bit_offset = 1 })) (omega arith))

four_inside :
    (b : ℕ) (s : Bytes)
    → IsByte b
    → read_bits 8 4 (record { remaining = b ∷ s; bit_offset = 1 })
      ≡ value_of (b / 8 % 16) (record { remaining = b ∷ s; bit_offset = 5 })
unfolding read_bits bits_loop bits_from_this_byte advance take_in
four_inside b s hb =
    rw (le→ltb (length (b ∷ s)) 1 (omega arith))
      (ap (λ v. value_of v (record { remaining = b ∷ s; bit_offset = 5 })) (omega arith))

parse-bytes :
    (a b : ℕ) (s : Bytes)
    → IsByte a
    → IsByte b
    → parse_aac_config (a ∷ b ∷ s)
      ≡ parsed (record {
        object_type = a / 8;
        sampling_frequency_index = a % 8 * 2 + b / 128;
        channel = b / 8 % 16;
      })
unfolding parse_aac_config or_zero
parse-bytes a b s ha hb = rw (
  le→ltb (length (a ∷ b ∷ s)) 2 (omega arith),
  five_bits a b s ha,
  four_across a b s ha hb,
  four_inside b s hb,
)

serialize-bytes :
    (config : AacSpecificConfig)
    → serialize_aac_config config
      ≡ bit_or (bit_or 0 (config.object_type % 32 * 8)) (config.sampling_frequency_index % 16 / 2)
        ∷ bit_or (bit_or 0 (config.sampling_frequency_index % 2 * 128)) (config.channel % 16 * 8)
        ∷ []
unfolding serialize_aac_config write write_loop or_at get_data get_data_size
serialize-bytes config = refl

first_byte :
    (type index : ℕ)
    → type < 32
    → index < 16
    → bit_or (bit_or 0 (type % 32 * 8)) (index % 16 / 2) ≡ type * 8 + index / 2
first_byte type index ht hi =
    let byte = type * 8 + index / 2 in
    let high : type % 32 * 8 ≡ byte / 8 * 8 = omega arith in
    let low : index % 16 / 2 ≡ byte % 8 = omega arith in
    ap (λ b. bit_or b (index % 16 / 2)) (or_none (type % 32 * 8) (omega arith))
    ∙ ap (λ b. bit_or b (index % 16 / 2)) high
    ∙ ap (λ b. bit_or (byte / 8 * 8) b) low
    ∙ or_low_three byte (omega arith)

second_byte :
    (index channel : ℕ)
    → channel < 16
    → bit_or (bit_or 0 (index % 2 * 128)) (channel % 16 * 8) ≡ index % 2 * 128 + channel * 8
second_byte index channel hc =
    let byte = index % 2 * 128 + channel * 8 in
    let high : index % 2 * 128 ≡ byte / 128 * 128 = omega arith in
    let low : channel % 16 * 8 ≡ byte % 128 = omega arith in
    ap (λ b. bit_or b (channel % 16 * 8)) (or_none (index % 2 * 128) (omega arith))
    ∙ ap (λ b. bit_or b (channel % 16 * 8)) high
    ∙ ap (λ b. bit_or (byte / 128 * 128) b) low
    ∙ or_low_seven byte (omega arith)

serialized :
    (config : AacSpecificConfig)
    → IsConfig config
    → serialize_aac_config config
      ≡ (config.object_type * 8 + config.sampling_frequency_index / 2)
        ∷ (config.sampling_frequency_index % 2 * 128 + config.channel * 8)
        ∷ []
serialized config h =
    serialize-bytes config
    ∙ ap
        (λ b.
          b
          ∷ bit_or (bit_or 0 (config.sampling_frequency_index % 2 * 128)) (config.channel % 16 * 8)
          ∷ [])
        (first_byte config.object_type config.sampling_frequency_index h.type_fits h.index_fits)
    ∙ ap (λ b. (config.object_type * 8 + config.sampling_frequency_index / 2) ∷ b ∷ [])
        (second_byte config.sampling_frequency_index config.channel h.channel_fits)

same_config :
    (config : AacSpecificConfig) (type index channel : ℕ)
    → type ≡ config.object_type
    → index ≡ config.sampling_frequency_index
    → channel ≡ config.channel
    → parsed (record { object_type = type; sampling_frequency_index = index; channel = channel })
      ≡ parsed config
same_config config type index channel ht hi hc =
    ap
      (λ v.
        parsed (record { object_type = v; sampling_frequency_index = index; channel = channel }))
      ht
    ∙ ap
        (λ v. parsed (record {
          object_type = config.object_type;
          sampling_frequency_index = v;
          channel = channel;
        }))
        hi
    ∙ ap
        (λ v. parsed (record {
          object_type = config.object_type;
          sampling_frequency_index = config.sampling_frequency_index;
          channel = v;
        }))
        hc

-- `Parse` reads back every configuration that `Serialize` writes through the bit writer, given that
-- the fields have their widths of 5, 4 and 4 bits.
pub parse_aac_config-serialize_aac_config :
    (config : AacSpecificConfig)
    → IsConfig config
    → parse_aac_config (serialize_aac_config config) ≡ parsed config
parse_aac_config-serialize_aac_config config h =
    let a = config.object_type * 8 + config.sampling_frequency_index / 2 in
    let b = config.sampling_frequency_index % 2 * 128 + config.channel * 8 in
    let ht = h.type_fits in
    let hi = h.index_fits in
    let hc = h.channel_fits in
    ap parse_aac_config (serialized config h)
    ∙ parse-bytes a b [] (omega (arith, ht, hi)) (omega (arith, hc))
    ∙ same_config config (a / 8) (a % 8 * 2 + b / 128) (b / 8 % 16) (omega (arith, hi))
        (omega (arith, hi, hc)) (omega (arith, hc))

-- The extradata that a session keeps of an AAC sequence header: its first 13 bits, the rest set to
-- 0, whatever follows them.
get_aac_extradata-bytes :
    (a b : ℕ) (s : Bytes)
    → IsByte a
    → IsByte b
    → get_aac_extradata (a ∷ b ∷ s) ≡ parsed (a ∷ (b / 8 * 8) ∷ [])
unfolding get_aac_extradata extradata_of
get_aac_extradata-bytes a b s ha hb =
    let config : AacSpecificConfig = record {
      object_type = a / 8;
      sampling_frequency_index = a % 8 * 2 + b / 128;
      channel = b / 8 % 16;
    } in
    let first : a / 8 * 8 + (a % 8 * 2 + b / 128) / 2 ≡ a = omega arith in
    let second : (a % 8 * 2 + b / 128) % 2 * 128 + b / 8 % 16 * 8 ≡ b / 8 * 8 = omega arith in
    ap extradata_of (parse-bytes a b s ha hb)
    ∙ ap parsed (
        serialized config (record {
          type_fits = omega arith;
          index_fits = omega arith;
          channel_fits = omega arith;
        }))
    ∙ ap (λ v. parsed (v ∷ ((a % 8 * 2 + b / 128) % 2 * 128 + b / 8 % 16 * 8) ∷ [])) first
    ∙ ap (λ v. parsed (a ∷ v ∷ [])) second
