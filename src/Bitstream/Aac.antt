-- ===== src/Bitstream/Aac.antt =====
-- `AACSpecificConfig` of common/src/media/bitstream/aac/aac_specific_config.{h,cpp}, and
-- `AACLatmToAdts::GetExtradata`.
pub mod RoundTrip
use media_engine.Base.{ℕ, ltb, length, if◌then◌else◌}
use media_engine.Base.Bytes.{Bytes}
use media_engine.Nalu.BitReader.{BitReader}
use media_engine.Nalu.ReadBits.{read_bits}
use media_engine.Flv.{Parsed, rejected, parsed, or_zero}
use media_engine.Flv
use media_engine.Bitstream.BitWriter.{new_bit_writer, write, get_data}

pub record AacSpecificConfig : Type 0 where
  pub object_type : ℕ
  pub sampling_frequency_index : ℕ
  pub channel : ℕ

-- `Parse`, with `MIN_AAC_SPECIFIC_CONFIG_SIZE`.
unfoldable pub parse_aac_config : Bytes → Parsed AacSpecificConfig
unfolding or_zero read_bits
parse_aac_config bytes =
    let r : BitReader = record { remaining = bytes; bit_offset = 0 } in
    if ltb (length bytes) 2
    then rejected
    else or_zero r (read_bits 8 5 r) (λ object_type r₁. or_zero r₁ (read_bits 8 4 r₁) (λ index r₂.
      or_zero r₂ (read_bits 8 4 r₂) (λ channel r₃. parsed (record {
        object_type = object_type;
        sampling_frequency_index = index;
        channel = channel;
      }))))

-- `Serialize`
unfoldable pub serialize_aac_config : AacSpecificConfig → Bytes
unfolding write get_data
serialize_aac_config config = get_data (
    write 4 config.channel
      (write 4 config.sampling_frequency_index (write 5 config.object_type (new_bit_writer 2))))

-- `AACLatmToAdts::GetExtradata` on a sequence header.
unfoldable pub extradata_of : Parsed AacSpecificConfig → Parsed Bytes
unfolding serialize_aac_config
extradata_of rejected = rejected
extradata_of Flv.crash = Flv.crash
extradata_of (parsed config) = parsed (serialize_aac_config config)

unfoldable pub get_aac_extradata : Bytes → Parsed Bytes
unfolding parse_aac_config extradata_of
get_aac_extradata bytes = extradata_of (parse_aac_config bytes)
