-- ===== src/Bitstream/H265.antt =====
-- common/src/media/bitstream/h265/h265_parser.{h,cpp}: the header of a NAL unit, the search for a
-- keyframe and the frame rate; the children have the parts of the sequence parameter set. A flag is
-- one bit read by `ReadBits`. Memory is not limited: a vector is as long as the code makes it.
pub mod Vui
pub mod Profile
pub mod RefPics
pub mod Sps
use media_engine.Base.{
  ℕ, zero, suc, Bool, true, false, not, Option, none, some, [], ltb, length, drop, ◌||◌, ◌∷◌, ◌==◌,
  if◌then◌else◌,
}
use media_engine.Base.Bytes.{Bytes}
use media_engine.Nalu.Emulation.{nal_unit_bitstream_parser}
use media_engine.Nalu.Splitter.{start_code_size}
use media_engine.Bitstream.Reading.{
  Outcome, rejected, crash, stuck, done, Parser, pure, fail, ◌>>=◌, bits, run_on,
}

-- `H265NalUnitHeader`, the type as its number.
pub record NalUnitHeader : Type 0 where
  pub type : ℕ
  pub layer_id : ℕ
  pub temporal_id_plus1 : ℕ

-- `H265NALUnitType`
abbrev pub bla_w_radl : ℕ
bla_w_radl = 17

abbrev pub idr_w_radl : ℕ
idr_w_radl = 19

abbrev pub cra_nut : ℕ
cra_nut = 21

abbrev pub sps : ℕ
sps = 33

-- `ReadBits(1, flag)`
abbrev pub flag : Parser ℕ
flag = bits 8 1

-- `ParseNalUnitHeader(parser, header)`
unfoldable pub parse_nal_unit_header : Parser NalUnitHeader
unfolding bits
parse_nal_unit_header = do
  forbidden_zero_bit ← flag
  if not (forbidden_zero_bit == 0) then fail else do
    nal_type ← bits 8 6
    layer_id ← bits 8 6
    temporal_id_plus1 ← bits 8 3
    pure (record { type = nal_type; layer_id = layer_id; temporal_id_plus1 = temporal_id_plus1 })

-- `ParseNalUnitHeader(nalu, length, header)` with the memory at the pointer.
unfoldable pub nal_unit_header : Bytes → ℕ → Outcome NalUnitHeader
unfolding parse_nal_unit_header nal_unit_bitstream_parser
nal_unit_header memory length =
    run_on (if ltb length 2 then fail else parse_nal_unit_header)
      (nal_unit_bitstream_parser memory length)

-- `header.GetNalUnitType()` behind a call whose result is not looked at: where that is false, the
-- field may still be what the memory held, since it has no initial value. None stops the process.
abbrev pub type_of : ℕ → Outcome NalUnitHeader → Option ℕ
type_of before rejected = some before
type_of before crash = none
type_of before stuck = none
type_of before (done header r) = some header.type

unfoldable pub is_keyframe : ℕ → Bool
is_keyframe type = type == idr_w_radl || (type == cra_nut || type == bla_w_radl)

-- The loop of `CheckKeyframe`, of which a round takes a byte at least: none where the process stops
-- or no fuel is left.
unfoldable pub keyframe_loop : ℕ → ℕ → Bytes → Option Bool
unfolding start_code_size nal_unit_header is_keyframe
keyframe_loop before fuel [] = some false
keyframe_loop before zero (b ∷ s) = none
keyframe_loop before (suc fuel) (b ∷ s) =
    let size = start_code_size (b ∷ s) in
    elim (size == 0) [
      | true ↦ keyframe_loop before fuel s
      | false ↦
          let rest = drop size (b ∷ s) in
          elim (ltb 2 (length rest)) [
            | false ↦ keyframe_loop before fuel rest
            | true ↦ elim (type_of before (nal_unit_header rest 2)) [
              | none ↦ none
              | some type ↦ elim (is_keyframe type) [
                | true ↦ some true
                | false ↦ keyframe_loop before fuel rest
              ]
            ]
          ]
    ]

-- `CheckKeyframe`, where the memory ends with the bitstream.
unfoldable pub check_keyframe : ℕ → Bytes → Option Bool
unfolding keyframe_loop
check_keyframe before bitstream = keyframe_loop before (length bitstream) bitstream
