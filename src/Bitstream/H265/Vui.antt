-- ===== src/Bitstream/H265/Vui.antt =====
-- `H265Parser::ProcessVuiParameters` with the hypothetical reference decoder's parameters.
use media_engine.Base.{ℕ, zero, suc, not, [], ◌||◌, ◌==◌, if◌then◌else◌}
use media_engine.Bitstream.Reading.{
  Outcome, rejected, crash, stuck, done, Parser, pure, ◌>>=◌, ◌>>◌, bits, u16, u32, uev,
}
use media_engine.Bitstream.H265.{flag}

-- `VuiParameters`
pub record VuiParameters : Type 0 where
  pub aspect_ratio_width : ℕ
  pub aspect_ratio_height : ℕ
  pub aspect_ratio_idc : ℕ
  pub num_units_in_tick : ℕ
  pub time_scale : ℕ

abbrev pub new_vui_parameters : VuiParameters
new_vui_parameters = record {
  aspect_ratio_width = 0;
  aspect_ratio_height = 0;
  aspect_ratio_idc = 0;
  num_units_in_tick = 0;
  time_scale = 0;
}

-- The loop of `ProcessSubLayerHrdParameters`.
unfoldable pub sub_layer_hrd : ℕ → ℕ → Parser ℕ
unfolding bits uev
sub_layer_hrd sub_pic_hrd_params_present_flag zero = pure 0
sub_layer_hrd sub_pic_hrd_params_present_flag (suc count) = do
  bit_rate_value_minus1 ← uev
  cpb_size_value_minus1 ← uev
  if sub_pic_hrd_params_present_flag == 1 then (uev >>= λ cpb_size_du. uev) else pure 0
  cbr_flag ← flag
  sub_layer_hrd sub_pic_hrd_params_present_flag count

-- A call whose result is not looked at. The reads above fail only where no bit is left, so the
-- reader then stands at the end.
unfoldable pub ignored : Outcome ℕ → Outcome ℕ
ignored rejected = done 0 (record { remaining = []; bit_offset = 0 })
ignored crash = crash
ignored stuck = stuck
ignored (done v r) = done v r

-- `ProcessSubLayerHrdParameters` as it is called, with `i <= cpb_cnt` rounds.
unfoldable pub process_sub_layer_hrd_parameters : ℕ → ℕ → Parser ℕ
unfolding sub_layer_hrd ignored
process_sub_layer_hrd_parameters sub_pic_hrd_params_present_flag cpb_cnt r =
    ignored (sub_layer_hrd sub_pic_hrd_params_present_flag (suc cpb_cnt) r)

-- The part that is common to the sub-layers: `nal_hrd_parameters_present_flag`,
-- `vcl_hrd_parameters_present_flag` and `sub_pic_hrd_params_present_flag`.
unfoldable pub hrd_delays : Parser ℕ
unfolding bits
hrd_delays = do
  sub_pic ← flag
  if sub_pic == 1
      then (do
        tick_divisor_minus2 ← bits 8 8
        du_cpb_removal_delay_increment_length_minus1 ← bits 8 5
        sub_pic_cpb_params_in_pic_timing_sei_flag ← flag
        bits 8 5)
      else pure 0
  bit_rate_scale ← bits 8 4
  cpb_size_scale ← bits 8 4
  if sub_pic == 1 then bits 8 4 else pure 0
  initial_cpb_removal_delay_length_minus1 ← bits 8 5
  au_cpb_removal_delay_length_minus1 ← bits 8 5
  dpb_output_delay_length_minus1 ← bits 8 5
  pure sub_pic

unfoldable pub hrd_common : Parser (ℕ × ℕ × ℕ)
unfolding bits hrd_delays
hrd_common = do
  nal ← flag
  vcl ← flag
  sub_pic ← if nal == 1 || vcl == 1 then hrd_delays else pure 0
  pure (nal, vcl, sub_pic)

-- A round of the loop over the sub-layers.
unfoldable pub hrd_layer : ℕ × ℕ × ℕ → Parser ℕ
unfolding bits uev process_sub_layer_hrd_parameters
hrd_layer (nal, vcl, sub_pic) = do
  fixed_pic_rate_general_flag ← flag
  fixed_pic_rate_within_cvs_flag ← if fixed_pic_rate_general_flag == 1 then pure 1 else flag
  low_delay_hrd_flag ←
      if fixed_pic_rate_within_cvs_flag == 1 then (uev >>= λ duration. pure 0) else flag
  cpb_cnt_minus1 ← if low_delay_hrd_flag == 1 then uev else pure 0
  if nal == 1 then process_sub_layer_hrd_parameters sub_pic cpb_cnt_minus1 else pure 0
  if vcl == 1 then process_sub_layer_hrd_parameters sub_pic cpb_cnt_minus1 else pure 0

unfoldable pub hrd_layers : ℕ → ℕ × ℕ × ℕ → Parser ℕ
unfolding hrd_layer
hrd_layers zero common = pure 0
hrd_layers (suc count) common = hrd_layer common >>= λ layer. hrd_layers count common

-- `ProcessHrdParameters`, whose `common_inf_present_flag` is 1 in its one call.
unfoldable pub process_hrd_parameters : ℕ → Parser ℕ
unfolding hrd_common hrd_layers
process_hrd_parameters max_sub_layers_minus1 =
    hrd_common >>= λ common. hrd_layers (suc max_sub_layers_minus1) common

unfoldable pub aspect_ratio : VuiParameters → Parser VuiParameters
unfolding bits
aspect_ratio params = do
  aspect_ratio_info_present_flag ← flag
  if not (aspect_ratio_info_present_flag == 1) then pure params else do
    idc ← bits 8 8
    if not (idc == 255) then pure (record params { aspect_ratio_idc = idc }) else do
      sar_width ← u16
      sar_height ← u16
      pure (record params {
        aspect_ratio_idc = idc;
        aspect_ratio_width = sar_width;
        aspect_ratio_height = sar_height;
      })

unfoldable pub overscan : Parser ℕ
unfolding bits
overscan = flag >>= λ present. if present == 1 then flag else pure 0

unfoldable pub video_signal_type : Parser ℕ
unfolding bits
video_signal_type = do
  video_signal_type_present_flag ← flag
  if not (video_signal_type_present_flag == 1) then pure 0 else do
    video_format ← bits 8 3
    video_full_range_flag ← flag
    colour_description_present_flag ← flag
    if not (colour_description_present_flag == 1)
        then pure 0
        else do colour_primaries ← bits 8 8; transfer_characteristics ← bits 8 8; bits 8 8

unfoldable pub chroma_location : Parser ℕ
unfolding bits uev
chroma_location = flag >>= λ present. if present == 1 then (uev >>= λ top_field. uev) else pure 0

-- The offsets of a window at its four sides.
unfoldable pub window : Parser ℕ
unfolding bits uev
window = do
  window_flag ← flag
  if not (window_flag == 1)
      then pure 0
      else do left_offset ← uev; right_offset ← uev; top_offset ← uev; uev

unfoldable pub vui_timing : ℕ → VuiParameters → Parser VuiParameters
unfolding bits uev process_hrd_parameters
vui_timing max_sub_layers_minus1 params = do
  vui_timing_info_present_flag ← flag
  if not (vui_timing_info_present_flag == 1) then pure params else do
    num_units_in_tick ← u32
    time_scale ← u32
    vui_poc_proportional_to_timing_flag ← flag
    if vui_poc_proportional_to_timing_flag == 1 then uev else pure 0
    vui_hrd_parameters_present_flag ← flag
    if vui_hrd_parameters_present_flag == 1
        then process_hrd_parameters max_sub_layers_minus1
        else pure 0
    pure (record params { num_units_in_tick = num_units_in_tick; time_scale = time_scale })

unfoldable pub bitstream_restriction : Parser ℕ
unfolding bits uev
bitstream_restriction = do
  bitstream_restriction_flag ← flag
  if not (bitstream_restriction_flag == 1) then pure 0 else do
    tiles_fixed_structure_flag ← flag
    motion_vectors_over_pic_boundaries_flag ← flag
    restricted_ref_pic_lists_flag ← flag
    min_spatial_segmentation_idc ← uev
    max_bytes_per_pic_denom ← uev
    max_bits_per_min_cu_denom ← uev
    log2_max_mv_length_horizontal ← uev
    uev

unfoldable pub process_vui_parameters : ℕ → Parser VuiParameters
unfolding bits aspect_ratio overscan video_signal_type chroma_location window vui_timing
    bitstream_restriction
process_vui_parameters max_sub_layers_minus1 = do
  params ← aspect_ratio new_vui_parameters
  overscan
  video_signal_type
  chroma_location
  neutral_chroma_indication_flag ← flag
  field_seq_flag ← flag
  frame_field_info_present_flag ← flag
  window
  params₁ ← vui_timing max_sub_layers_minus1 params
  bitstream_restriction
  pure params₁
