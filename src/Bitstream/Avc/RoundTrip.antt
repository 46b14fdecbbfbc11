-- ===== src/Bitstream/Avc/RoundTrip.antt =====
-- The layout of an AVC decoder configuration record, read back.
use media_engine.Base.{List, [], length, All, ◌+◌, ◌<◌, ◌≡◌, ◌∷◌, ◌++◌}
use media_engine.Base.Bytes.{Bytes, be16}
use media_engine.Nalu.BitReader.{BitReader}
use media_engine.Bitstream.Avc.{AvcConfig}

-- A list of parameter sets as ISO/IEC 14496-15 lays it out, and the whole record without extension.
unfoldable pub sets_layout : List Bytes → Bytes
sets_layout [] = []
sets_layout (x ∷ xs) = be16 (length x) ++ (x ++ sets_layout xs)

unfoldable pub avc_layout : AvcConfig → Bytes
unfolding sets_layout
avc_layout c =
    c.version
    ∷ c.profile_indication
    ∷ c.profile_compatibility
    ∷ c.level_indication
    ∷ (252 + c.length_minus_one)
    ∷ (224 + length c.sps_list)
    ∷ (sets_layout c.sps_list ++ (length c.pps_list ∷ sets_layout c.pps_list))

-- A parameter set that a length of 16 bits can announce.
abbrev pub IsParameterSet : Bytes → Type 0
IsParameterSet x = (0 < length x) × (length x < 65536)

-- A record whose fields have their widths, and that has no extension.
pub record IsRecord (c : AvcConfig) : Type 0 where
  pub length_fits : c.length_minus_one < 4
  pub sps_fit : length c.sps_list < 32
  pub pps_fit : length c.pps_list < 256
  pub sps_sets : All IsParameterSet c.sps_list
  pub pps_sets : All IsParameterSet c.pps_list
  pub no_chroma : c.chroma_format ≡ 0
  pub no_depth : c.bit_depth_luma_minus8 ≡ 0
  pub no_ext : c.sps_ext_list ≡ []
