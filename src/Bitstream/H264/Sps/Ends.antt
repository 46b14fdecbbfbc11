-- ===== src/Bitstream/H264/Sps/Ends.antt =====
-- `ParseSPS` ends.
use media_engine.Base.{ℕ, zero, suc, inl, inr, Bool-cases, length, ◌*◌, ◌%◌, ◌^◌, ◌==◌}
use media_engine.Base.Bytes.{Bytes}
use media_engine.Nalu.Emulation.{nal_unit_bitstream_parser}
use media_engine.Nalu.Unescape.{nal_unit_bitstream_parser-ne-stuck}
use media_engine.Bitstream.Reading.{bit, sev}
use media_engine.Bitstream.Reading.Ends.{
  Ended, Ends, Ends-bind, Ends-if, Ends-bit, Ends-sev, Ends-fail, Ended-run_on, ends_rules,
}
use media_engine.Bitstream.H264.{parse_nal_unit_header}
use media_engine.Bitstream.H264.Sps.{
  Sps, scaling_flags, chroma_format, frame_offsets, pic_order, cropping, picture_size, aspect_ratio,
  overscan, video_signal_type, chroma_location, frames_per_second, timing, vui_parameters,
  sps_fields, sps_parser, parse_sps,
}

Ends-scaling_flags : (count : ℕ) → Ends (scaling_flags count)
unfolding scaling_flags
Ends-scaling_flags zero = search ends_rules
Ends-scaling_flags (suc count) =
    Ends-bind bit _ Ends-bit
      (λ present. Ends-if (present == 0) _ _ (Ends-scaling_flags count) Ends-fail)

Ends-chroma_format : Ends chroma_format
unfolding chroma_format
Ends-chroma_format = search (ends_rules, Ends-scaling_flags) depth 30

Ends-frame_offsets : (count : ℕ) → Ends (frame_offsets count)
unfolding frame_offsets
Ends-frame_offsets zero = search ends_rules
Ends-frame_offsets (suc count) = Ends-bind sev _ Ends-sev (λ offset. Ends-frame_offsets count)

Ends-pic_order : (type : ℕ) → Ends (pic_order type)
unfolding pic_order
Ends-pic_order type = search (ends_rules, Ends-frame_offsets) depth 30

Ends-cropping : Ends cropping
unfolding cropping
Ends-cropping = search ends_rules depth 30

Ends-picture_size : Ends picture_size
unfolding picture_size
Ends-picture_size = search (ends_rules, Ends-cropping) depth 30

Ends-aspect_ratio : (s : Sps) → Ends (aspect_ratio s)
unfolding aspect_ratio
Ends-aspect_ratio s = search ends_rules depth 30

Ends-overscan : Ends overscan
unfolding overscan
Ends-overscan = search ends_rules

Ends-video_signal_type : Ends video_signal_type
unfolding video_signal_type
Ends-video_signal_type = search ends_rules depth 40

Ends-chroma_location : Ends chroma_location
unfolding chroma_location
Ends-chroma_location = search ends_rules depth 12

Ends-frames_per_second : (num scale : ℕ) → Ends (frames_per_second num scale)
unfolding frames_per_second
Ends-frames_per_second num scale = record {
  at = λ r h. elim (Bool-cases (2 * num % 2 ^ 32 == 0)) [
    | inl by_zero ↦ rw by_zero tt
    | inr positive ↦ rw positive h
  ];
}

Ends-timing : (s : Sps) → Ends (timing s)
unfolding timing
Ends-timing s = search (ends_rules, Ends-frames_per_second) depth 30

Ends-vui_parameters : (s : Sps) → Ends (vui_parameters s)
unfolding vui_parameters
Ends-vui_parameters s =
    search
      (
        ends_rules, Ends-aspect_ratio, Ends-overscan, Ends-video_signal_type, Ends-chroma_location,
        Ends-timing,
      )
      depth 30

Ends-sps_fields : (profile level : ℕ) → Ends (sps_fields profile level)
unfolding sps_fields
Ends-sps_fields profile level =
    search (ends_rules, Ends-chroma_format, Ends-pic_order, Ends-picture_size, Ends-vui_parameters)
      depth 40

Ends-parse_nal_unit_header : Ends parse_nal_unit_header
unfolding parse_nal_unit_header
Ends-parse_nal_unit_header = search ends_rules depth 30

Ends-sps_parser : Ends sps_parser
unfolding sps_parser
Ends-sps_parser = search (ends_rules, Ends-parse_nal_unit_header, Ends-sps_fields) depth 30

-- `ParseSPS` ends on every memory and for every length that the caller announces: no loop of it
-- runs on, however large the counts that it reads, and it leaves its reader inside a byte.
pub parse_sps-Ended : (memory : Bytes) (length : ℕ) → Ended (parse_sps memory length)
unfolding parse_sps
parse_sps-Ended memory length =
    Ended-run_on sps_parser (nal_unit_bitstream_parser memory length) Ends-sps_parser
      (nal_unit_bitstream_parser-ne-stuck memory length)
