-- ===== src/Bitstream/H264/Sps.antt =====
-- `H264Parser::ParseSPS`.
pub mod Ends
pub mod Layout
pub mod Reads
pub mod RoundTrip
use media_engine.Base.{
  ℕ, zero, suc, Bool, not, length, ◌+◌, ◌-◌, ◌*◌, ◌/◌, ◌%◌, ◌^◌, ◌||◌, ◌==◌, if◌then◌else◌,
}
use media_engine.Base.Bytes.{Bytes}
use media_engine.Nalu.Emulation.{nal_unit_bitstream_parser}
use media_engine.Bitstream.Reading.{
  Outcome, crash, Parser, pure, fail, ◌>>=◌, ◌>>◌, bits, u8, u16, skip, bit, uev, sev, skip_bytes,
  run_on,
}
use media_engine.Bitstream.H264.{sps, parse_nal_unit_header}

-- `H264SPS`
pub record Sps : Type 0 where
  pub profile : ℕ
  pub codec_level : ℕ
  pub width : ℕ
  pub height : ℕ
  pub fps : ℕ
  pub id : ℕ
  pub max_nr_of_reference_frames : ℕ
  pub aspect_ratio_idc : ℕ
  pub aspect_ratio_width : ℕ
  pub aspect_ratio_height : ℕ

-- The profiles that carry a chroma format.
unfoldable pub has_chroma_format : ℕ → Bool
has_chroma_format profile =
    profile == 44
    || (profile == 83
        || (profile == 86
            || (profile == 100
                || (profile == 110 || (profile == 118 || (profile == 122 || profile == 244))))))

-- The flags of the scaling lists; a list itself is not supported.
unfoldable pub scaling_flags : ℕ → Parser ℕ
unfolding bit
scaling_flags zero = pure 0
scaling_flags (suc count) = bit >>= λ present. if present == 0 then scaling_flags count else fail

unfoldable pub chroma_format : Parser ℕ
unfolding bit uev bits scaling_flags
chroma_format = do
  format ← uev
  if format == 3 then skip 1 else pure 0
  luma_bit_depth ← uev
  chroma_bit_depth ← uev
  zero_transform_bypass_flag ← bit
  scaling_matrix_present_flag ← bit
  if scaling_matrix_present_flag == 0 then pure 0 else scaling_flags (if format == 3 then 12 else 8)

-- The loop over the reference frames' offsets.
unfoldable pub frame_offsets : ℕ → Parser ℕ
unfolding sev
frame_offsets zero = pure 0
frame_offsets (suc count) = sev >>= λ offset. frame_offsets count

-- The order of pictures.
unfoldable pub pic_order : ℕ → Parser ℕ
unfolding bit uev sev frame_offsets
pic_order order_type =
    if order_type == 0
    then uev
    else if order_type == 1
    then (do
      delta_pic_order_always_zero_flag ← bit
      offset_for_non_ref_pic ← sev
      offset_for_top_to_bottom_field ← sev
      count ← uev
      frame_offsets count)
    else pure 0

-- The cropped pixels at the left, right, top and bottom.
unfoldable pub cropping : Parser (ℕ × ℕ × ℕ × ℕ)
unfolding bit uev
cropping = do
  frame_cropping_flag ← bit
  if frame_cropping_flag == 0
      then pure (0, 0, 0, 0)
      else do left ← uev; right ← uev; top ← uev; bottom ← uev; pure (left, right, top, bottom)

-- `_width` and `_height`, in 32 bits.
unfoldable pub width_of : ℕ → ℕ → ℕ → ℕ
width_of in_mbs_minus1 left right =
    ((in_mbs_minus1 + 1) * 16 + 2 ^ 34 - 2 * left - 2 * right) % 2 ^ 32

unfoldable pub height_of : ℕ → ℕ → ℕ → ℕ → ℕ
height_of frame_mbs_only_flag in_map_units_minus1 top bottom =
    ((2 - frame_mbs_only_flag) * (in_map_units_minus1 + 1) * 16 + 2 ^ 34 - 2 * top - 2 * bottom)
    % 2 ^ 32

-- The block that determines the size.
unfoldable pub picture_size : Parser (ℕ × ℕ)
unfolding bit uev cropping width_of height_of
picture_size = do
  pic_width_in_mbs_minus1 ← uev
  pic_height_in_map_units_minus1 ← uev
  frame_mbs_only_flag ← bit
  if frame_mbs_only_flag == 0 then bit else pure 0
  direct_8x8_inference_flag ← bit
  (left, right, top, bottom) ← cropping
  pure (
    width_of pic_width_in_mbs_minus1 left right,
    height_of frame_mbs_only_flag pic_height_in_map_units_minus1 top bottom,
  )

-- The parts of the VUI parameters.
unfoldable pub aspect_ratio : Sps → Parser Sps
unfolding bit bits
aspect_ratio s = do
  aspect_ratio_info_present_flag ← bit
  if aspect_ratio_info_present_flag == 0 then pure s else do
    idc ← u8
    if not (idc == 255) then pure (record s { aspect_ratio_idc = idc }) else do
      width ← u16
      height ← u16
      pure (record s {
        aspect_ratio_idc = idc;
        aspect_ratio_width = width;
        aspect_ratio_height = height;
      })

unfoldable pub overscan : Parser ℕ
unfolding bit
overscan = bit >>= λ present. if present == 0 then pure 0 else bit

unfoldable pub video_signal_type : Parser ℕ
unfolding bit bits
video_signal_type = do
  video_signal_type_present_flag ← bit
  if video_signal_type_present_flag == 0 then pure 0 else do
    video_format₁ ← bit
    video_format₂ ← bit
    video_format₃ ← bit
    video_full_range_flag ← bit
    colour_description_present_flag ← bit
    if colour_description_present_flag == 0
        then pure 0
        else do colour_primaries ← u8; transfer_characteristics ← u8; u8

unfoldable pub chroma_location : Parser ℕ
unfolding bit uev
chroma_location = bit >>= λ present. if present == 0 then pure 0 else (uev >>= λ top_field. uev)

-- `time_scale / (2 * num_units_in_tick)` in 32 bits: by 0 it stops the process.
unfoldable pub frames_per_second : ℕ → ℕ → Parser ℕ
frames_per_second num_units_in_tick time_scale r =
    if 2 * num_units_in_tick % 2 ^ 32 == 0
    then crash
    else pure (time_scale / (2 * num_units_in_tick % 2 ^ 32)) r

unfoldable pub timing : Sps → Parser Sps
unfolding bit uev frames_per_second
timing s = do
  timing_info_present_flag ← bit
  if timing_info_present_flag == 0 then pure s else do
    num_units_in_tick ← uev
    time_scale ← uev
    fixed_frame_rate_flag ← bit
    if fixed_frame_rate_flag == 0
        then pure s
        else do fps ← frames_per_second num_units_in_tick time_scale; pure (record s { fps = fps })

unfoldable pub vui_parameters : Sps → Parser Sps
unfolding bit aspect_ratio overscan video_signal_type chroma_location timing
vui_parameters s = do
  vui_parameters_present_flag ← bit
  if vui_parameters_present_flag == 0
      then pure s
      else do s₁ ← aspect_ratio s; overscan; video_signal_type; chroma_location; timing s₁

-- What follows the level.
unfoldable pub sps_fields : ℕ → ℕ → Parser Sps
unfolding bit uev has_chroma_format chroma_format pic_order picture_size vui_parameters
sps_fields profile level = do
  id ← uev
  if has_chroma_format profile then chroma_format else pure 0
  log2_max_frame_num_minus4 ← uev
  order_type ← uev
  pic_order order_type
  references ← uev
  gaps_in_frame_num_value_allowed_flag ← bit
  (width, height) ← picture_size
  vui_parameters (record {
    profile = profile;
    codec_level = level;
    width = width;
    height = height;
    fps = 0;
    id = id;
    max_nr_of_reference_frames = references;
    aspect_ratio_idc = 0;
    aspect_ratio_width = 0;
    aspect_ratio_height = 0;
  })

-- The header, the profile, the byte of constraints and the level.
unfoldable pub sps_parser : Parser Sps
unfolding parse_nal_unit_header bits skip_bytes sps_fields
sps_parser = do
  header ← parse_nal_unit_header
  if not (header.type == sps)
      then fail
      else do profile ← u8; skip_bytes 1; level ← u8; sps_fields profile level

-- `ParseSPS`, given a fresh `H264SPS`. What it has set before it returns false is dropped.
unfoldable pub parse_sps : Bytes → ℕ → Outcome Sps
unfolding sps_parser nal_unit_bitstream_parser
parse_sps memory length = run_on sps_parser (nal_unit_bitstream_parser memory length)
