-- ===== src/Bitstream/Tests.antt =====
-- The theorems on concrete configurations.
use media_engine.Base.{refl, true, none, some, List, [], arith, ◌≡◌, ◌∷◌}
use media_engine.Base.Bytes.{Bytes}
use media_engine.Flv.{parsed}
use media_engine.Bitstream.Aac.{AacSpecificConfig, parse_aac_config, serialize_aac_config}
use media_engine.Bitstream.Avc.{AvcConfig, start_config, serialize_avc_config}
use media_engine.Bitstream.Avc.RoundTrip.{avc_layout}
use media_engine.Bitstream.Converter.{
  nalu, converted, with_start_codes, convert_avcc_to_annexb, convert_annexb_to_avcc,
}
use media_engine.Bitstream.Converter.Plain.{IsNalUnit, no_code}
use media_engine.Bitstream.Converter.RoundTrip.{
  with_lengths, convert_annexb_to_avcc-convert_avcc_to_annexb,
}
use media_engine.Nalu.Splitter.{split}
use media_engine.Bitstream.Converter.{raw}
use media_engine.Bitstream.Adts.{latm, convert_latm_to_adts, convert_adts_to_latm}
use media_engine.Bitstream.Adts.RoundTrip.{
  adts_frames, packets_of, lengths_of, convert_adts_to_latm-convert_latm_to_adts,
}
use media_engine.Nalu.BitReader.{BitReader}
use media_engine.Bitstream.H264.Sps.Layout.{Syntax, size_of}
use media_engine.Bitstream.Converter.Splits.{split-convert_avcc_to_annexb}
use media_engine.Bitstream.H265
use media_engine.Bitstream.H265.Sps.Ends.{parse_sps-Ended_h265}
use media_engine.Bitstream.Reading.Ends.{Ended}
use media_engine.Bitstream.H264.Sps.{parse_sps}
use media_engine.Bitstream.H264.Sps.Ends.{parse_sps-Ended}
use media_engine.Bitstream.Aac.RoundTrip.{IsConfig, parse_aac_config-serialize_aac_config}

-- AAC LC at 44100 Hz with two channels.
abbrev stereo : AacSpecificConfig
stereo = record { object_type = 2; sampling_frequency_index = 4; channel = 2 }

stereo-IsConfig : IsConfig stereo
stereo-IsConfig = record {
  type_fits = omega arith;
  index_fits = omega arith;
  channel_fits = omega arith;
}

parse_aac_config-serialize_aac_config_example :
    parse_aac_config (serialize_aac_config stereo) ≡ parsed stereo
parse_aac_config-serialize_aac_config_example =
    parse_aac_config-serialize_aac_config stereo stereo-IsConfig

-- High profile with one set of each kind.
abbrev high : AvcConfig
high = record (start_config 1 100 0 31) {
  length_minus_one = 3;
  sps_list = (0x67 ∷ 0x64 ∷ []) ∷ [];
  pps_list = (0x68 ∷ []) ∷ [];
}

serialize_run : serialize_avc_config high ≡ avc_layout high
unfolding serialize_avc_config avc_layout
serialize_run = refl

-- An IDR slice behind an access unit delimiter.
abbrev two_units : List Bytes
two_units = (0x09 ∷ 0xf0 ∷ []) ∷ (0x65 ∷ 0x88 ∷ 0x84 ∷ []) ∷ []

delimiter-IsNalUnit : IsNalUnit (0x09 ∷ 0xf0 ∷ [])
unfolding no_code
delimiter-IsNalUnit = record {
  header = 0x09;
  payload = 0xf0 ∷ [];
  unit_eq = refl;
  header_pos = omega arith;
  plain = (refl, (refl, record {}));
  fits = omega arith;
}

slice-IsNalUnit : IsNalUnit (0x65 ∷ 0x88 ∷ 0x84 ∷ [])
unfolding no_code
slice-IsNalUnit = record {
  header = 0x65;
  payload = 0x88 ∷ 0x84 ∷ [];
  unit_eq = refl;
  header_pos = omega arith;
  plain = (refl, (refl, (refl, record {})));
  fits = omega arith;
}

convert_annexb_to_avcc-convert_avcc_to_annexb_example :
    (convert_avcc_to_annexb nalu (with_lengths two_units) []
      ≡ converted (with_start_codes two_units))
    × (convert_annexb_to_avcc (with_start_codes two_units) ≡ some (with_lengths two_units))
convert_annexb_to_avcc-convert_avcc_to_annexb_example =
    convert_annexb_to_avcc-convert_avcc_to_annexb two_units
      (delimiter-IsNalUnit, (slice-IsNalUnit, record {}))

-- A baseline sequence parameter set of 320 by 240 pixels, without VUI parameters.
abbrev baseline : Bytes
baseline = 0x67 ∷ 66 ∷ 0xc0 ∷ 30 ∷ 0xf4 ∷ 0x0a ∷ 0x0f ∷ 0xc8 ∷ []

parse_sps-Ended_example : Ended (parse_sps baseline 8)
parse_sps-Ended_example = parse_sps-Ended baseline 8

-- A parameter set of 1920 by 1080 pixels: 68 rows of macroblocks less 8 pixels at the bottom.
abbrev full_hd : Bytes
full_hd = 0x67 ∷ 66 ∷ 0xc0 ∷ 40 ∷ 0xf4 ∷ 0x3 ∷ 0xc0 ∷ 0x11 ∷ 0x3f ∷ 0x2a ∷ []

-- The same set, as its fields.
abbrev full_hd_set : Syntax
full_hd_set = record {
  id = 0;
  chroma = none;
  log2_max_frame_num = 0;
  order = some 0;
  references = 1;
  gaps = 0;
  picture = record {
    width_in_mbs_minus1 = 119;
    height_in_map_units_minus1 = 67;
    is_frame = true;
    mb_adaptive = 0;
    direct_8x8_inference = 1;
    crop = some (0, 0, 0, 4);
  };
}

split-convert_avcc_to_annexb_example :
    (bytes : Bytes) × (convert_avcc_to_annexb nalu (with_lengths two_units) [] ≡ converted bytes)
    × (split bytes ≡ some two_units)
split-convert_avcc_to_annexb_example =
    split-convert_avcc_to_annexb two_units (delimiter-IsNalUnit, (slice-IsNalUnit, record {}))

-- A parameter set of H.265 for 1280 by 720 pixels, with timing information.
abbrev main_profile : Bytes
main_profile =
    0x42 ∷ 1 ∷ 1 ∷ 1 ∷ 0x60 ∷ 0 ∷ 0 ∷ 3 ∷ 0 ∷ 0x90 ∷ 0 ∷ 0 ∷ 3 ∷ 0 ∷ 0 ∷ 3 ∷ 0 ∷ 0x5d ∷ 0xa0 ∷ 2
    ∷ 0x80 ∷ 0x80 ∷ 0x2d ∷ 0x16 ∷ 0x59 ∷ 0x59 ∷ 0xa4 ∷ 0x93 ∷ 0x2b ∷ 0xc0 ∷ 0x5a ∷ 0x70 ∷ 0x80 ∷ 0
    ∷ 1 ∷ 0xf4 ∷ 0x80 ∷ 0 ∷ 0x3a ∷ 0x98 ∷ 4 ∷ []

parse_sps-Ended_h265_example : Ended (H265.Sps.parse_sps main_profile 41)
parse_sps-Ended_h265_example = parse_sps-Ended_h265 main_profile 41

convert_adts_to_latm-convert_latm_to_adts_example :
    convert_adts_to_latm (
      adts_frames stereo (0x12 ∷ 0x10 ∷ []) ((0x21 ∷ 0x10 ∷ []) ∷ [] ∷ (0xff ∷ 0xf1 ∷ 0 ∷ []) ∷ []))
    ≡ latm (0x21 ∷ 0x10 ∷ 0xff ∷ 0xf1 ∷ 0 ∷ []) (2 ∷ 0 ∷ 3 ∷ [])
unfolding packets_of lengths_of
convert_adts_to_latm-convert_latm_to_adts_example =
    convert_adts_to_latm-convert_latm_to_adts stereo 0x12 (0x10 ∷ [])
      ((0x21 ∷ 0x10 ∷ []) ∷ [] ∷ (0xff ∷ 0xf1 ∷ 0 ∷ []) ∷ [])
      (omega arith, (omega arith, (omega arith, record {})))

one_frame_run :
    (convert_latm_to_adts stereo raw (0x21 ∷ []) (0x12 ∷ 0x10 ∷ [])).1
    ≡ 0xff ∷ 0xf1 ∷ 0x50 ∷ 0x80 ∷ 1 ∷ 0 ∷ 0xfc ∷ 0x21 ∷ []
unfolding convert_latm_to_adts
one_frame_run = refl

full_hd_size : size_of full_hd_set ≡ (1920, 1080)
full_hd_size = refl
