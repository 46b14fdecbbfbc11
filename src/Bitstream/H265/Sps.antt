-- ===== src/Bitstream/H265/Sps.antt =====
-- `H265Parser::ParseSPS` and `H265SPS::GetFps`.
pub mod Ends
use media_engine.Base.{
  ℕ, zero, suc, min, not, Option, none, some, [], ltb, length, ◌+◌, ◌*◌, ◌/◌, ◌%◌, ◌^◌, ◌==◌,
  if◌then◌else◌,
}
use media_engine.Base.Bytes.{Bytes}
use media_engine.Nalu.Emulation.{nal_unit_bitstream_parser}
use media_engine.Bitstream.Reading.{
  Outcome, Parser, pure, fail, ◌>>=◌, ◌>>◌, bits, uev, sev, run_on,
}
use media_engine.Bitstream.H265.{sps, flag, parse_nal_unit_header}
use media_engine.Bitstream.H265.Profile.{ProfileTierLevel, process_profile_tier_level}
use media_engine.Bitstream.H265.Vui.{
  VuiParameters, new_vui_parameters, window, process_vui_parameters,
}
use media_engine.Bitstream.H265.RefPics.{ref_pic_sets}

-- `H265SPS`; the fields that `ParseSPS` never sets are left out.
pub record Sps : Type 0 where
  pub width : ℕ
  pub height : ℕ
  pub profile_tier_level : ProfileTierLevel
  pub vui_parameters : VuiParameters

-- The three numbers of each sub-layer.
unfoldable pub ordering_info : ℕ → Parser ℕ
unfolding uev
ordering_info zero = pure 0
ordering_info (suc count) = do
  sps_max_dec_pic_buffering_minus1 ← uev
  sps_max_num_reorder_pics ← uev
  sps_max_latency_increase_plus1 ← uev
  ordering_info count

unfoldable pub coefficients : ℕ → Parser ℕ
unfolding sev
coefficients zero = pure 0
coefficients (suc count) = sev >>= λ delta. coefficients count

-- A scaling list of the size `i`. The coefficients are read for the two large sizes only.
unfoldable pub scaling_list : ℕ → Parser ℕ
unfolding bits uev sev coefficients
scaling_list i = do
  scaling_list_pred_mode_flag ← flag
  if scaling_list_pred_mode_flag == 0
      then uev
      else (if ltb 1 i then (sev >>= λ dc. coefficients (min 64 (2 ^ (4 + 2 * i)))) else pure 0)

unfoldable pub scaling_lists_of : ℕ → ℕ → Parser ℕ
unfolding scaling_list
scaling_lists_of i zero = pure 0
scaling_lists_of i (suc count) = scaling_list i >>= λ read. scaling_lists_of i count

-- Six lists of the sizes 0, 1 and 2, and two of size 3.
unfoldable pub scaling_list_data : Parser ℕ
unfolding scaling_lists_of
scaling_list_data = do
  scaling_lists_of 0 6
  scaling_lists_of 1 6
  scaling_lists_of 2 6
  scaling_lists_of 3 2

unfoldable pub scaling : Parser ℕ
unfolding bits scaling_list_data
scaling = do
  scaling_list_enabled_flag ← flag
  if not (scaling_list_enabled_flag == 1) then pure 0 else do
    sps_scaling_list_data_present_flag ← flag
    if sps_scaling_list_data_present_flag == 1 then scaling_list_data else pure 0

unfoldable pub pcm : Parser ℕ
unfolding bits uev
pcm = do
  pcm_enabled_flag ← flag
  if not (pcm_enabled_flag == 1) then pure 0 else do
    pcm_sample_bit_depth_luma_minus1 ← bits 8 4
    pcm_sample_bit_depth_chroma_minus1 ← bits 8 4
    log2_min_pcm_luma_coding_block_size_minus3 ← uev
    log2_diff_max_min_pcm_luma_coding_block_size ← uev
    flag

-- The long term pictures, whose number has a width that is cut to 8 bits on its way to `ReadBits`.
unfoldable pub long_term_pics : ℕ → ℕ → Parser ℕ
unfolding bits
long_term_pics width zero = pure 0
long_term_pics width (suc count) = do
  lt_ref_pic_poc_lsb_sps ← bits 32 (width % 256)
  used_by_curr_pic_lt_sps_flag ← flag
  long_term_pics width count

unfoldable pub long_term : ℕ → Parser ℕ
unfolding bits uev long_term_pics
long_term log2_max_pic_order_cnt_lsb_minus4 = do
  long_term_ref_pics_present_flag ← flag
  if not (long_term_ref_pics_present_flag == 1)
      then pure 0
      else (uev >>= λ count. long_term_pics (log2_max_pic_order_cnt_lsb_minus4 + 4) count)

-- From the bit depths to the transform hierarchies; the number that counts pictures is kept.
unfoldable pub depths_and_sizes : ℕ → Parser ℕ
unfolding bits uev ordering_info
depths_and_sizes max_sub_layers_minus1 = do
  bit_depth_luma_minus8 ← uev
  bit_depth_chroma_minus8 ← uev
  log2_max_pic_order_cnt_lsb_minus4 ← uev
  sps_sub_layer_ordering_info_present_flag ← flag
  ordering_info
      (if sps_sub_layer_ordering_info_present_flag == 0 then 1 else max_sub_layers_minus1 + 1)
  log2_min_luma_coding_block_size_minus3 ← uev
  log2_diff_max_min_luma_coding_block_size ← uev
  log2_min_transform_block_size_minus2 ← uev
  log2_diff_max_min_transform_block_size ← uev
  max_transform_hierarchy_depth_inter ← uev
  max_transform_hierarchy_depth_intra ← uev
  pure log2_max_pic_order_cnt_lsb_minus4

-- From the scaling lists to the flags in front of the VUI parameters.
unfoldable pub coding_tools : ℕ → Parser ℕ
unfolding bits uev scaling pcm ref_pic_sets long_term
coding_tools log2_max_pic_order_cnt_lsb_minus4 = do
  scaling
  amp_enabled_flag ← flag
  sample_adaptive_offset_enabled_flag ← flag
  pcm
  num_short_term_ref_pic_sets ← uev
  ref_pic_sets num_short_term_ref_pic_sets 0 num_short_term_ref_pic_sets []
  long_term log2_max_pic_order_cnt_lsb_minus4
  sps_temporal_mvp_enabled_flag ← flag
  flag

-- What follows the header.
unfoldable pub sps_fields : Parser Sps
unfolding bits uev process_profile_tier_level window depths_and_sizes coding_tools
    process_vui_parameters
sps_fields = do
  sps_video_parameter_set_id ← bits 8 4
  max_sub_layers_minus1 ← bits 8 3
  temporal_id_nesting_flag ← flag
  profile ← process_profile_tier_level max_sub_layers_minus1
  sps_seq_parameter_set_id ← uev
  chroma_format_idc ← uev
  if chroma_format_idc == 3 then flag else pure 0
  width ← uev
  height ← uev
  window
  log2_max_pic_order_cnt_lsb_minus4 ← depths_and_sizes max_sub_layers_minus1
  coding_tools log2_max_pic_order_cnt_lsb_minus4
  vui_parameters_present_flag ← flag
  vui ←
      if vui_parameters_present_flag == 1
      then process_vui_parameters max_sub_layers_minus1
      else pure new_vui_parameters
  sps_extension_flag ← flag
  pure (record {
    width = width;
    height = height;
    profile_tier_level = profile;
    vui_parameters = vui;
  })

unfoldable pub sps_parser : Parser Sps
unfolding parse_nal_unit_header sps_fields
sps_parser =
    parse_nal_unit_header >>= λ header. if not (header.type == sps) then fail else sps_fields

-- `ParseSPS`, given a fresh `H265SPS`. What it has set before it returns false is dropped.
unfoldable pub parse_sps : Bytes → ℕ → Outcome Sps
unfolding sps_parser nal_unit_bitstream_parser
parse_sps memory length = run_on sps_parser (nal_unit_bitstream_parser memory length)

-- `GetFps`: a quotient of numbers of 32 bits, none where the division by 0 stops the process.
unfoldable pub get_fps : Sps → Option ℕ
get_fps s =
    if s.vui_parameters.num_units_in_tick == 0
    then none
    else some (s.vui_parameters.time_scale / s.vui_parameters.num_units_in_tick)
