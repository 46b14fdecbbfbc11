-- ===== src/Bitstream/Converter.antt =====
-- common/src/media/bitstream/h264/h264_converter.cpp: NAL units with their lengths in front (AVCC)
-- and behind start codes (Annex B). `H264AvccToAnnexB::Convert` of h264_avcc_to_annexb.cpp is the
-- same code as `ConvertAvccToAnnexb`.
pub mod Plain
pub mod RoundTrip
pub mod Splits
use media_engine.Base.{
  ℕ, zero, suc, Bool, true, false, Option, none, some, List, [], ltb, length, take, drop, ◌+◌, ◌-◌,
  ◌*◌, ◌&&◌, ◌||◌, ◌∷◌, ◌++◌, ◌==◌, if◌then◌else◌,
}
use media_engine.Base.Bytes.{Bytes, be32}
use media_engine.Flv.{Parsed}
use media_engine.Flv
use media_engine.Nalu.Splitter.{is_three_byte_code, is_four_byte_code, slice}
use media_engine.Bitstream.Reading.{Outcome, done}
use media_engine.Bitstream.Reading
use media_engine.Bitstream.Avc.{AvcConfig, parse_avc_config, get_avc_extradata}
use media_engine.Bitstream.H264.{NalUnitHeader, idr_slice, nal_unit_header}

-- `cmn::PacketType`
pub data PacketType : Type 0 where
  unknown ovt raw sequence_header nalu : PacketType

-- What a conversion comes to: false, which leaves the data as it was, a read behind the data, no
-- fuel left, or the new data.
pub data Converted {ℓ} (A : Type ℓ) : Type ℓ where
  rejected crash stuck : Converted A
  converted : A → Converted A

-- `START_CODE` in front of each unit.
unfoldable pub with_start_codes : List Bytes → Bytes
with_start_codes [] = []
with_start_codes (x ∷ xs) = 0 ∷ 0 ∷ 0 ∷ 1 ∷ (x ++ with_start_codes xs)

-- The parameter sets of a configuration, the sequence's first.
unfoldable pub parameter_sets_of : AvcConfig → Bytes
unfolding with_start_codes
parameter_sets_of config = with_start_codes config.sps_list ++ with_start_codes config.pps_list

unfoldable pub of_config : Parsed AvcConfig → (AvcConfig → Bytes) → Converted Bytes
of_config Flv.rejected f = rejected
of_config Flv.crash f = crash
of_config (Flv.parsed config) f = converted (f config)

-- `has_idr_slice` behind a unit whose header was read, or not.
unfoldable pub see_header : Bool → Outcome NalUnitHeader → Converted Bool
see_header seen Reading.rejected = converted seen
see_header seen Reading.crash = crash
see_header seen Reading.stuck = stuck
see_header seen (done header r) = converted (seen || header.type == idr_slice)

-- What a round does with the rest of the data: the flag and the bytes written so far.
abbrev pub Units : Type 0
Units = Bool × Bytes

unfoldable pub with_unit :
    (Bool → Bytes → Converted Units) → Converted Bool → Bytes → Converted Units
with_unit again rejected out = rejected
with_unit again crash out = crash
with_unit again stuck out = stuck
with_unit again (converted seen) out = again seen out

-- A unit behind its length: the header is one byte at the unit, in the memory up to the data's end.
unfoldable pub unit_turn :
    (Bytes → Bool → Bytes → Converted Units) → ℕ → Bytes → Bool → Bytes → Converted Units
unfolding see_header nal_unit_header with_unit
unit_turn again size rest seen out =
    if ltb (length rest) size
    then rejected
    else with_unit (again (drop size rest)) (see_header seen (nal_unit_header rest 1))
        (out ++ (0 ∷ 0 ∷ 0 ∷ 1 ∷ take size rest))

-- The loop over the units; a round takes four bytes at least.
unfoldable pub units_loop : ℕ → Bytes → Bool → Bytes → Converted Units
unfolding unit_turn
units_loop fuel [] seen out = converted (seen, out)
units_loop zero (a ∷ s) seen out = stuck
units_loop (suc fuel) (a ∷ b ∷ c ∷ d ∷ s) seen out =
    unit_turn (λ s' seen' out'. units_loop fuel s' seen' out')
      (a * 16777216 + b * 65536 + c * 256 + d) s seen out
units_loop (suc fuel) (a ∷ s) seen out = rejected

-- The parameter sets of the extradata, in front of a packet with an IDR slice.
unfoldable pub with_parameter_sets : Bytes → Converted Units → Converted Bytes
unfolding of_config parse_avc_config parameter_sets_of
with_parameter_sets extradata rejected = rejected
with_parameter_sets extradata crash = crash
with_parameter_sets extradata stuck = stuck
with_parameter_sets extradata (converted (seen, out)) =
    if ltb 0 (length extradata) && seen
    then of_config (parse_avc_config extradata) (λ config. parameter_sets_of config ++ out)
    else converted out

-- `ConvertAvccToAnnexb`: a packet of another type is emptied.
unfoldable pub convert_avcc_to_annexb : PacketType → Bytes → Bytes → Converted Bytes
unfolding of_config parse_avc_config parameter_sets_of units_loop with_parameter_sets
convert_avcc_to_annexb sequence_header packet extradata =
    of_config (parse_avc_config packet) parameter_sets_of
convert_avcc_to_annexb nalu packet extradata =
    with_parameter_sets extradata (units_loop (length packet) packet false [])
convert_avcc_to_annexb _ packet extradata = converted []

-- `GetStartPatternSize` in its probe mode, the only one that is used: `first_pattern_size` is never
-- set.
unfoldable pub start_pattern_size : Bytes → ℕ
unfolding is_four_byte_code is_three_byte_code
start_pattern_size buffer =
    if is_four_byte_code buffer then 4 else if is_three_byte_code buffer then 3 else 0

-- The unit from `last_offset` to `offset` with its length, if there is one.
unfoldable pub write_unit : Bytes → ℕ → ℕ → Bytes
write_unit packet last_offset offset =
    if ltb last_offset offset
    then be32 (offset - last_offset) ++ slice packet last_offset (offset - last_offset)
    else []

-- The loop of `ConvertAnnexbToAvcc`, of which a round takes a byte at least, and the unit behind
-- it. `last_offset` never passes `offset`: a start code behind it sets both to its end.
unfoldable pub annexb_loop : ℕ → Bytes → Bytes → ℕ → ℕ → Bytes → Option Bytes
unfolding start_pattern_size write_unit
annexb_loop fuel packet [] offset last_offset out =
    some (out ++ write_unit packet last_offset offset)
annexb_loop zero packet (b ∷ s) offset last_offset out = none
annexb_loop (suc fuel) packet (b ∷ s) offset last_offset out =
    let size = if b == 0 then start_pattern_size (b ∷ s) else 0 in
    elim (ltb 0 size) [
      | true ↦
          annexb_loop fuel packet (drop size (b ∷ s)) (offset + size)
            ((if ltb last_offset offset then offset else last_offset) + size)
            (out ++ write_unit packet last_offset offset)
      | false ↦ annexb_loop fuel packet s (offset + 1) last_offset out
    ]

-- `ConvertAnnexbToAvcc`
unfoldable pub convert_annexb_to_avcc : Bytes → Option Bytes
unfolding annexb_loop
convert_annexb_to_avcc packet = annexb_loop (length packet) packet packet 0 0 []

-- `H264AvccToAnnexB::Convert`, line by line the same.
abbrev pub convert : PacketType → Bytes → Bytes → Converted Bytes
convert = convert_avcc_to_annexb

-- `GetExtraDataFromAvcc`, the same as `H264AvccToAnnexB::GetExtradata`.
unfoldable pub get_extra_data_from_avcc : PacketType → Bytes → Parsed Bytes
unfolding get_avc_extradata
get_extra_data_from_avcc sequence_header packet = get_avc_extradata packet
get_extra_data_from_avcc _ packet = Flv.rejected
