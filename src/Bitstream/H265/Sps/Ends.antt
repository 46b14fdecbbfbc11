-- ===== src/Bitstream/H265/Sps/Ends.antt =====
-- `H265Parser::ParseSPS` ends.
use media_engine.Base.{
  ℕ, zero, suc, max, Option, none, some, List, [], arith, length, ◌+◌, ◌%◌, ◌^◌, ◌∷◌, ◌++◌, ◌==◌,
}
use media_engine.Base.Bytes.{Bytes}
use media_engine.Nalu.Emulation.{nal_unit_bitstream_parser}
use media_engine.Nalu.Unescape.{nal_unit_bitstream_parser-ne-stuck}
use media_engine.Bitstream.Reading.{
  Outcome, rejected, crash, stuck, done, pure, ◌>>=◌, skip, uev, sev,
}
use media_engine.Bitstream.Reading.Ends.{
  Ended, Ends, Ends-pure, Ends-bind, Ends-if, Ends-bits, Ends-uev, Ends-sev, Ended-run_on,
  ends_rules,
}
use media_engine.Bitstream.H265.{flag, parse_nal_unit_header}
use media_engine.Bitstream.H265.Profile.{
  SubLayers, sub_layer_flags, reserved_bits, sub_layers, process_profile_tier_level,
}
use media_engine.Bitstream.H265.Vui.{
  VuiParameters, sub_layer_hrd, ignored, process_sub_layer_hrd_parameters, hrd_delays, hrd_common,
  hrd_layer, hrd_layers, process_hrd_parameters, aspect_ratio, overscan, video_signal_type,
  chroma_location, window, vui_timing, bitstream_restriction, process_vui_parameters,
}
use media_engine.Bitstream.H265.RefPics.{
  RefPicSet, no_flags, pic_flags, pic_offsets, num_delta_pocs, predicted_from, predicted_set,
  explicit_set, process_short_term_ref_pic_set, ref_pic_sets,
}
use media_engine.Bitstream.H265.Sps.{
  ordering_info, coefficients, scaling_list, scaling_lists_of, scaling_list_data, scaling, pcm,
  long_term_pics, long_term, depths_and_sizes, coding_tools, sps_fields, sps_parser, parse_sps,
}

-- A loop that does the same so many times.
Ends-flag : Ends flag
Ends-flag = Ends-bits 8 1

Ends-sub_layer_flags : (count : ℕ) → Ends (sub_layer_flags count)
unfolding sub_layer_flags
Ends-sub_layer_flags zero = Ends-pure []
Ends-sub_layer_flags (suc count) = Ends-bind _ _ Ends-flag (λ p.
    Ends-bind _ _ Ends-flag
      (λ l. Ends-bind _ _ (Ends-sub_layer_flags count) (λ rest. Ends-pure ((p, l) ∷ rest))))

Ends-reserved_bits : (count : ℕ) → Ends (reserved_bits count)
unfolding reserved_bits
Ends-reserved_bits zero = Ends-pure 0
Ends-reserved_bits (suc count) =
    Ends-bind (skip 2) _ (Ends-bits 64 2) (λ d. Ends-reserved_bits count)

Ends-sub_layers : (flags : SubLayers) → Ends (sub_layers flags)
unfolding sub_layers
Ends-sub_layers [] = Ends-pure 0
Ends-sub_layers ((p, l) ∷ rest) =
    Ends-bind _ _ (Ends-if (p == 0) (pure 0) (skip 88) (Ends-pure 0) (Ends-bits 64 88)) (λ v.
      Ends-bind _ _ (Ends-if (l == 0) (pure 0) (skip 8) (Ends-pure 0) (Ends-bits 64 8))
        (λ w. Ends-sub_layers rest))

Ends-process_profile_tier_level : (max : ℕ) → Ends (process_profile_tier_level max)
unfolding process_profile_tier_level
Ends-process_profile_tier_level max =
    search (ends_rules, Ends-sub_layer_flags, Ends-reserved_bits, Ends-sub_layers) depth 60

Ends-sub_layer_hrd : (sub_pic count : ℕ) → Ends (sub_layer_hrd sub_pic count)
unfolding sub_layer_hrd
Ends-sub_layer_hrd sub_pic zero = Ends-pure 0
Ends-sub_layer_hrd sub_pic (suc count) = Ends-bind uev _ Ends-uev (λ a.
    Ends-bind uev _ Ends-uev (λ b.
      Ends-bind _ _
        (Ends-if (sub_pic == 1) (uev >>= λ du. uev) (pure 0)
          (Ends-bind uev _ Ends-uev (λ du. Ends-uev)) (Ends-pure 0))
        (λ c. Ends-bind _ _ Ends-flag (λ d. Ends-sub_layer_hrd sub_pic count))))

Ended-ignored : (o : Outcome ℕ) → Ended o → Ended (ignored o)
unfolding ignored
Ended-ignored rejected h = omega arith
Ended-ignored crash h = h
Ended-ignored stuck h = h
Ended-ignored (done v r) h = h

Ends-process_sub_layer_hrd_parameters :
    (sub_pic count : ℕ) → Ends (process_sub_layer_hrd_parameters sub_pic count)
unfolding process_sub_layer_hrd_parameters
Ends-process_sub_layer_hrd_parameters sub_pic count = record {
  at = λ r h. Ended-ignored _ ((Ends-sub_layer_hrd sub_pic (suc count)).at r h);
}

Ends-hrd_delays : Ends hrd_delays
unfolding hrd_delays
Ends-hrd_delays = search ends_rules depth 60

Ends-hrd_common : Ends hrd_common
unfolding hrd_common
Ends-hrd_common = search (ends_rules, Ends-hrd_delays) depth 30

Ends-hrd_layer : (common : ℕ × ℕ × ℕ) → Ends (hrd_layer common)
unfolding hrd_layer
Ends-hrd_layer (nal, vcl, sub_pic) =
    search (ends_rules, Ends-process_sub_layer_hrd_parameters) depth 40

Ends-hrd_layers : (count : ℕ) (common : ℕ × ℕ × ℕ) → Ends (hrd_layers count common)
unfolding hrd_layers
Ends-hrd_layers zero common = Ends-pure 0
Ends-hrd_layers (suc count) common =
    Ends-bind (hrd_layer common) _ (Ends-hrd_layer common) (λ l. Ends-hrd_layers count common)

Ends-process_hrd_parameters : (max : ℕ) → Ends (process_hrd_parameters max)
unfolding process_hrd_parameters
Ends-process_hrd_parameters max = search (ends_rules, Ends-hrd_common, Ends-hrd_layers) depth 12

Ends-aspect_ratio : (params : VuiParameters) → Ends (aspect_ratio params)
unfolding aspect_ratio
Ends-aspect_ratio params = search ends_rules depth 40

Ends-overscan : Ends overscan
unfolding overscan
Ends-overscan = search ends_rules depth 12

Ends-video_signal_type : Ends video_signal_type
unfolding video_signal_type
Ends-video_signal_type = search ends_rules depth 40

Ends-chroma_location : Ends chroma_location
unfolding chroma_location
Ends-chroma_location = search ends_rules depth 12

Ends-window : Ends window
unfolding window
Ends-window = search ends_rules depth 30

Ends-vui_timing : (max : ℕ) (params : VuiParameters) → Ends (vui_timing max params)
unfolding vui_timing
Ends-vui_timing max params = search (ends_rules, Ends-process_hrd_parameters) depth 40

Ends-bitstream_restriction : Ends bitstream_restriction
unfolding bitstream_restriction
Ends-bitstream_restriction = search ends_rules depth 40

Ends-process_vui_parameters : (max : ℕ) → Ends (process_vui_parameters max)
unfolding process_vui_parameters
Ends-process_vui_parameters max =
    search
      (
        ends_rules, Ends-aspect_ratio, Ends-overscan, Ends-video_signal_type, Ends-chroma_location,
        Ends-window, Ends-vui_timing, Ends-bitstream_restriction,
      )
      depth 60

Ends-pic_flags : (count : ℕ) → Ends (pic_flags count)
unfolding pic_flags
Ends-pic_flags zero = Ends-pure _
Ends-pic_flags (suc count) = Ends-bind _ _ Ends-flag (λ used.
    Ends-bind _ _ (Ends-if (used == 0) flag (pure 1) Ends-flag (Ends-pure 1)) (λ use_delta.
      Ends-bind _ _ (Ends-pic_flags count) (λ rest. Ends-pure ((used, use_delta) ∷ rest))))

Ends-pic_offsets : (count : ℕ) → Ends (pic_offsets count)
unfolding pic_offsets
Ends-pic_offsets zero = Ends-pure 0
Ends-pic_offsets (suc count) =
    Ends-bind uev _ Ends-uev (λ d. Ends-bind _ _ Ends-flag (λ u. Ends-pic_offsets count))

Ends-no_flags : Ends no_flags
unfolding no_flags
Ends-no_flags = Ends-bind _ _ Ends-flag (λ used. record { at = λ r h. record {} })

Ends-predicted_from : (s : Option RefPicSet) → Ends (predicted_from s)
unfolding predicted_from
Ends-predicted_from none = record { at = λ r h. record {} }
Ends-predicted_from (some s) =
    Ends-if (num_delta_pocs s + 1 == 2 ^ 32) _ _ Ends-no_flags
      (Ends-bind _ _ (Ends-pic_flags (num_delta_pocs s)) (λ flags. Ends-pure _))

Ends-predicted_set : (idx total : ℕ) (sets : List RefPicSet) → Ends (predicted_set idx total sets)
unfolding predicted_set
Ends-predicted_set idx total sets = search (ends_rules, Ends-predicted_from) depth 30

Ends-explicit_set : Ends explicit_set
unfolding explicit_set
Ends-explicit_set = search (ends_rules, Ends-pic_offsets) depth 30

Ends-process_short_term_ref_pic_set :
    (idx total : ℕ) (sets : List RefPicSet) → Ends (process_short_term_ref_pic_set idx total sets)
unfolding process_short_term_ref_pic_set
Ends-process_short_term_ref_pic_set idx total sets =
    search (ends_rules, Ends-predicted_set, Ends-explicit_set) depth 20

Ends-ref_pic_sets :
    (count idx total : ℕ) (sets : List RefPicSet) → Ends (ref_pic_sets count idx total sets)
unfolding ref_pic_sets
Ends-ref_pic_sets zero idx total sets = Ends-pure 0
Ends-ref_pic_sets (suc count) idx total sets =
    Ends-bind (process_short_term_ref_pic_set idx total sets) _
      (Ends-process_short_term_ref_pic_set idx total sets)
      (λ s. Ends-ref_pic_sets count (idx + 1) total (sets ++ (s ∷ [])))

Ends-ordering_info : (count : ℕ) → Ends (ordering_info count)
unfolding ordering_info
Ends-ordering_info zero = Ends-pure 0
Ends-ordering_info (suc count) =
    Ends-bind uev _ Ends-uev (λ a.
      Ends-bind uev _ Ends-uev (λ b. Ends-bind uev _ Ends-uev (λ c. Ends-ordering_info count)))

Ends-coefficients : (count : ℕ) → Ends (coefficients count)
unfolding coefficients
Ends-coefficients zero = Ends-pure 0
Ends-coefficients (suc count) = Ends-bind sev _ Ends-sev (λ d. Ends-coefficients count)

Ends-scaling_list : (i : ℕ) → Ends (scaling_list i)
unfolding scaling_list
Ends-scaling_list i = search (ends_rules, Ends-coefficients) depth 20

Ends-scaling_lists_of : (i count : ℕ) → Ends (scaling_lists_of i count)
unfolding scaling_lists_of
Ends-scaling_lists_of i zero = Ends-pure 0
Ends-scaling_lists_of i (suc count) =
    Ends-bind (scaling_list i) _ (Ends-scaling_list i) (λ l. Ends-scaling_lists_of i count)

Ends-scaling_list_data : Ends scaling_list_data
unfolding scaling_list_data
Ends-scaling_list_data = search (ends_rules, Ends-scaling_lists_of) depth 20

Ends-scaling : Ends scaling
unfolding scaling
Ends-scaling = search (ends_rules, Ends-scaling_list_data) depth 20

Ends-pcm : Ends pcm
unfolding pcm
Ends-pcm = search ends_rules depth 30

Ends-long_term_pics : (width count : ℕ) → Ends (long_term_pics width count)
unfolding long_term_pics
Ends-long_term_pics width zero = Ends-pure 0
Ends-long_term_pics width (suc count) =
    Ends-bind _ _ (Ends-bits 32 (width % 256))
      (λ p. Ends-bind _ _ Ends-flag (λ u. Ends-long_term_pics width count))

Ends-long_term : (log2_max : ℕ) → Ends (long_term log2_max)
unfolding long_term
Ends-long_term log2_max = search (ends_rules, Ends-long_term_pics) depth 20

Ends-depths_and_sizes : (max : ℕ) → Ends (depths_and_sizes max)
unfolding depths_and_sizes
Ends-depths_and_sizes max = search (ends_rules, Ends-ordering_info) depth 60

Ends-coding_tools : (log2_max : ℕ) → Ends (coding_tools log2_max)
unfolding coding_tools
Ends-coding_tools log2_max =
    search (ends_rules, Ends-scaling, Ends-pcm, Ends-ref_pic_sets, Ends-long_term) depth 60

Ends-sps_fields : Ends sps_fields
unfolding sps_fields
Ends-sps_fields =
    search
      (
        ends_rules, Ends-process_profile_tier_level, Ends-window, Ends-depths_and_sizes,
        Ends-coding_tools, Ends-process_vui_parameters,
      )
      depth 60

Ends-parse_nal_unit_header : Ends parse_nal_unit_header
unfolding parse_nal_unit_header
Ends-parse_nal_unit_header = search ends_rules depth 30

Ends-sps_parser : Ends sps_parser
unfolding sps_parser
Ends-sps_parser = search (ends_rules, Ends-parse_nal_unit_header, Ends-sps_fields) depth 12

-- `ParseSPS` ends on every memory and for every length that the caller announces: no loop of it
-- runs on, however large the counts that it reads, and it leaves its reader inside a byte.
pub parse_sps-Ended_h265 : (memory : Bytes) (length : ℕ) → Ended (parse_sps memory length)
unfolding parse_sps
parse_sps-Ended_h265 memory length =
    Ended-run_on sps_parser (nal_unit_bitstream_parser memory length) Ends-sps_parser
      (nal_unit_bitstream_parser-ne-stuck memory length)
