-- ===== src/Bitstream/H264.antt =====
-- common/src/media/bitstream/h264/h264_parser.{h,cpp}: the header of a NAL unit, the search for a
-- keyframe and the sequence parameter set.
pub mod Sps
use media_engine.Base.{
  ℕ, zero, suc, Bool, true, false, not, Option, none, some, [], ltb, length, drop, ◌||◌, ◌∷◌, ◌==◌,
  if◌then◌else◌,
}
use media_engine.Base.Bytes.{Bytes}
use media_engine.Nalu.Emulation.{nal_unit_bitstream_parser}
use media_engine.Nalu.Splitter.{start_code_size}
use media_engine.Bitstream.Reading.{
  Outcome, rejected, crash, stuck, done, Parser, pure, fail, ◌>>=◌, bits, run_on,
}

-- `H264NalUnitHeader`, the type as its number.
pub record NalUnitHeader : Type 0 where
  pub nal_ref_idc : ℕ
  pub type : ℕ

-- `H264NalUnitType`
abbrev pub unspecified : ℕ
unspecified = 0

abbrev pub idr_slice : ℕ
idr_slice = 5

abbrev pub sps : ℕ
sps = 7

-- `ParseNalUnitHeader(parser, header)`
unfoldable pub parse_nal_unit_header : Parser NalUnitHeader
unfolding bits
parse_nal_unit_header = do
  forbidden_zero_bit ← bits 8 1
  if not (forbidden_zero_bit == 0) then fail else do
    nal_ref_idc ← bits 8 2
    nal_type ← bits 8 5
    pure (record { nal_ref_idc = nal_ref_idc; type = nal_type })

-- `ParseNalUnitHeader(nalu, length, header)` with the memory at the pointer.
unfoldable pub nal_unit_header : Bytes → ℕ → Outcome NalUnitHeader
unfolding parse_nal_unit_header nal_unit_bitstream_parser
nal_unit_header memory length =
    run_on (if ltb length 1 then fail else parse_nal_unit_header)
      (nal_unit_bitstream_parser memory length)

-- `header.GetNalUnitType()` behind a call whose result is not looked at; none stops the process.
abbrev pub type_of : Outcome NalUnitHeader → Option ℕ
type_of rejected = some unspecified
type_of crash = none
type_of stuck = none
type_of (done header r) = some header.type

-- The loop of `CheckKeyframe`, of which a round takes a byte at least: none where the process stops
-- or no fuel is left.
unfoldable pub keyframe_loop : ℕ → Bytes → Option Bool
unfolding start_code_size nal_unit_header
keyframe_loop fuel [] = some false
keyframe_loop zero (b ∷ s) = none
keyframe_loop (suc fuel) (b ∷ s) =
    let size = start_code_size (b ∷ s) in
    elim (size == 0) [
      | true ↦ keyframe_loop fuel s
      | false ↦
          let rest = drop size (b ∷ s) in
          elim (ltb 1 (length rest)) [
            | false ↦ keyframe_loop fuel rest
            | true ↦ elim (type_of (nal_unit_header rest 1)) [
              | none ↦ none
              | some type ↦ elim (type == idr_slice || type == sps) [
                | true ↦ some true
                | false ↦ keyframe_loop fuel rest
              ]
            ]
          ]
    ]

-- `CheckKeyframe`, where the memory ends with the bitstream.
unfoldable pub check_keyframe : Bytes → Option Bool
unfolding keyframe_loop
check_keyframe bitstream = keyframe_loop (length bitstream) bitstream
