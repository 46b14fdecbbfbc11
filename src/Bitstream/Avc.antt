-- ===== src/Bitstream/Avc.antt =====
-- `AVCDecoderConfigurationRecord` of
-- common/src/media/bitstream/h264/h264_decoder_configuration_record.{h,cpp}, and
-- `H264AvccToAnnexB::GetExtradata`. The counts of the lists are their lengths, and the reserved
-- bits that `Parse` stores are read by nothing.
pub mod RoundTrip
use media_engine.Base.{
  ℕ, zero, suc, Bool, not, List, [], ltb, length, take, drop, ◌+◌, ◌*◌, ◌||◌, ◌∷◌, ◌==◌,
  if◌then◌else◌,
}
use media_engine.Base.Bytes.{Bytes}
use media_engine.Nalu.BitReader.{BitReader}
use media_engine.Nalu.ReadBits.{BitsRead, refused, value_of, read_bits, read_byte}
use media_engine.Flv.{Parsed, rejected, parsed, or_zero}
use media_engine.Flv
use media_engine.Bitstream.BitWriter.{BitWriter, new_bit_writer, write, get_data}

pub record AvcConfig : Type 0 where
  pub version : ℕ
  pub profile_indication : ℕ
  pub profile_compatibility : ℕ
  pub level_indication : ℕ
  pub length_minus_one : ℕ
  pub sps_list : List Bytes
  pub pps_list : List Bytes
  pub chroma_format : ℕ
  pub bit_depth_luma_minus8 : ℕ
  pub sps_ext_list : List Bytes

-- `ReadBytes<uint16_t>`
unfoldable pub uint16_of : Bytes → ℕ → BitsRead
uint16_of (a ∷ b ∷ s) offset =
    value_of (a * 256 + b) (record { remaining = s; bit_offset = offset })
uint16_of _ offset = refused

unfoldable pub read_uint16 : BitReader → BitsRead
unfolding uint16_of
read_uint16 r = uint16_of r.remaining r.bit_offset

-- A loop over `count` parameter sets, each with its length in front.
unfoldable pub parameter_sets {ℓ} :
    {A : Type ℓ} → ℕ → BitReader → (List Bytes → BitReader → Parsed A) → Parsed A
unfolding or_zero read_uint16
parameter_sets zero r k = k [] r
parameter_sets (suc count) r k = or_zero r (read_uint16 r) (λ size r₁.
    if size == 0
    then rejected
    else if ltb (length r₁.remaining) size
    then rejected
    else parameter_sets count
        (record { remaining = drop size r₁.remaining; bit_offset = r₁.bit_offset })
        (λ sets r₂. k (take size r₁.remaining ∷ sets) r₂))

-- The profiles with an extension behind the parameter sets.
unfoldable pub has_extension : ℕ → Bool
has_extension profile = profile == 100 || profile == 110 || profile == 122 || profile == 144

-- The extension of a record.
unfoldable pub parse_extension : AvcConfig → BitReader → Parsed AvcConfig
unfolding or_zero read_bits read_byte parameter_sets
parse_extension config r = or_zero r (read_bits 8 6 r) (λ reserved₃ r₁.
    or_zero r₁ (read_bits 8 2 r₁) (λ chroma r₂. or_zero r₂ (read_bits 8 5 r₂) (λ reserved₄ r₃.
      or_zero r₃ (read_bits 8 3 r₃) (λ depth r₄. or_zero r₄ (read_byte r₄) (λ count r₅.
        parameter_sets count r₅ (λ sets r₆. parsed (record config {
          chroma_format = chroma;
          bit_depth_luma_minus8 = depth;
          sps_ext_list = sets;
        })))))))

-- What follows the first four bytes.
unfoldable pub parse_sets : AvcConfig → BitReader → Parsed AvcConfig
unfolding or_zero read_bits read_byte parameter_sets has_extension parse_extension
parse_sets config r = or_zero r (read_bits 8 6 r) (λ reserved₁ r₁.
    if not (reserved₁ == 63)
    then rejected
    else or_zero r₁ (read_bits 8 2 r₁) (λ minus_one r₂.
      or_zero r₂ (read_bits 8 3 r₂) (λ reserved₂ r₃.
        if not (reserved₂ == 7)
        then rejected
        else or_zero r₃ (read_bits 8 5 r₃) (λ sps_count r₄. parameter_sets sps_count r₄ (λ sps r₅.
          or_zero r₅ (read_byte r₅) (λ pps_count r₆. parameter_sets pps_count r₆ (λ pps r₇.
            let whole : AvcConfig = record config {
              length_minus_one = minus_one;
              sps_list = sps;
              pps_list = pps;
            } in
            if has_extension config.profile_indication
            then parse_extension whole r₇
            else parsed whole)))))))

-- A record of four bytes and no sets.
abbrev pub start_config : ℕ → ℕ → ℕ → ℕ → AvcConfig
start_config version profile compatibility level = record {
  version = version;
  profile_indication = profile;
  profile_compatibility = compatibility;
  level_indication = level;
  length_minus_one = 0;
  sps_list = [];
  pps_list = [];
  chroma_format = 0;
  bit_depth_luma_minus8 = 0;
  sps_ext_list = [];
}

-- `Parse`, with `MIN_AVCDECODERCONFIGURATIONRECORD_SIZE`.
unfoldable pub parse_avc_config : Bytes → Parsed AvcConfig
unfolding or_zero read_byte parse_sets
parse_avc_config bytes =
    let r : BitReader = record { remaining = bytes; bit_offset = 0 } in
    if ltb (length bytes) 7
    then rejected
    else or_zero r (read_byte r) (λ version r₁. or_zero r₁ (read_byte r₁) (λ profile r₂.
      or_zero r₂ (read_byte r₂) (λ compatibility r₃.
        or_zero r₃ (read_byte r₃)
          (λ level r₄. parse_sets (start_config version profile compatibility level) r₄))))

-- `Serialize`, into 512 bytes.
unfoldable pub write_bytes : Bytes → BitWriter → BitWriter
unfolding write
write_bytes [] w = w
write_bytes (b ∷ s) w = write_bytes s (write 8 b w)

unfoldable pub write_sets : List Bytes → BitWriter → BitWriter
unfolding write write_bytes
write_sets [] w = w
write_sets (x ∷ xs) w = write_sets xs (write_bytes x (write 16 (length x) w))

unfoldable pub serialize_avc_config : AvcConfig → Bytes
unfolding write write_sets get_data
serialize_avc_config config =
    let head = write 8 config.level_indication (
      write 8 config.profile_compatibility
        (write 8 config.profile_indication (write 8 config.version (new_bit_writer 512)))) in
    let counts =
      write 5 (length config.sps_list)
        (write 3 0x07 (write 2 config.length_minus_one (write 6 0x3f head))) in
    get_data (
      write_sets config.pps_list
        (write 8 (length config.pps_list) (write_sets config.sps_list counts)))

-- `H264AvccToAnnexB::GetExtradata` on a sequence header.
unfoldable pub extradata_of_avc : Parsed AvcConfig → Parsed Bytes
unfolding serialize_avc_config
extradata_of_avc rejected = rejected
extradata_of_avc Flv.crash = Flv.crash
extradata_of_avc (parsed config) = parsed (serialize_avc_config config)

unfoldable pub get_avc_extradata : Bytes → Parsed Bytes
unfolding parse_avc_config extradata_of_avc
get_avc_extradata bytes = extradata_of_avc (parse_avc_config bytes)
