-- ===== src/Bitstream/H264/Sps/Layout.antt =====
-- Sequence parameter sets as the H.264 standard lays them out, without scaling lists and VUI
-- parameters, and with a picture order of type 0 or 2.
use media_engine.Base.{
  ℕ, Bool, true, false, Option, none, some, List, [], ◌+◌, ◌-◌, ◌*◌, ◌^◌, ◌≤◌, ◌<◌, ◌≡◌, ◌⊎◌, ◌∷◌,
  ◌++◌, ◌==◌, if◌then◌else◌,
}
use media_engine.Nalu.ExpGolomb.{ue_bits}
use media_engine.Bitstream.H264.Sps.{Sps, has_chroma_format}

-- A number that an Exp-Golomb code of 32 bits can carry.
abbrev pub IsCode : ℕ → Type 0
IsCode v = v + 1 < 2 ^ 32

-- `chroma_format_idc`, the two bit depths and the flag behind them.
pub record Chroma : Type 0 where
  pub format : ℕ
  pub luma_bit_depth : ℕ
  pub chroma_bit_depth : ℕ
  pub bypass : ℕ

pub record Picture : Type 0 where
  pub width_in_mbs_minus1 : ℕ
  pub height_in_map_units_minus1 : ℕ
  pub is_frame : Bool
  pub mb_adaptive : ℕ
  pub direct_8x8_inference : ℕ
  pub crop : Option (ℕ × ℕ × ℕ × ℕ)

-- What stands behind the level; `order` is the number that comes with a picture order of type 0.
pub record Syntax : Type 0 where
  pub id : ℕ
  pub chroma : Option Chroma
  pub log2_max_frame_num : ℕ
  pub order : Option ℕ
  pub references : ℕ
  pub gaps : ℕ
  pub picture : Picture

abbrev pub chroma_bits : Option Chroma → List ℕ
chroma_bits none = []
chroma_bits (some c) =
    ue_bits c.format
    ++ (ue_bits c.luma_bit_depth ++ (ue_bits c.chroma_bit_depth ++ (c.bypass ∷ 0 ∷ [])))

abbrev pub order_type : Option ℕ → ℕ
order_type none = 2
order_type (some v) = 0

abbrev pub order_bits : Option ℕ → List ℕ
order_bits none = []
order_bits (some v) = ue_bits v

abbrev pub frame_bits : Picture → List ℕ
frame_bits p = if p.is_frame then 1 ∷ [] else 0 ∷ p.mb_adaptive ∷ []

abbrev pub crop_bits : Option (ℕ × ℕ × ℕ × ℕ) → List ℕ
crop_bits none = 0 ∷ []
crop_bits (some (left, right, top, bottom)) =
    1 ∷ (ue_bits left ++ (ue_bits right ++ (ue_bits top ++ ue_bits bottom)))

abbrev pub picture_bits : Picture → List ℕ
picture_bits p =
    ue_bits p.width_in_mbs_minus1
    ++ (ue_bits p.height_in_map_units_minus1
        ++ (frame_bits p ++ (p.direct_8x8_inference ∷ crop_bits p.crop)))

-- The last bit says that there are no VUI parameters.
abbrev pub syntax_bits : Syntax → List ℕ
syntax_bits s =
    ue_bits s.id
    ++ (chroma_bits s.chroma
        ++ (ue_bits s.log2_max_frame_num
            ++ (ue_bits (order_type s.order)
                ++ (order_bits s.order
                    ++ (ue_bits s.references ++ (s.gaps ∷ (picture_bits s.picture ++ (0 ∷ []))))))))

-- The offsets of the cropping window, 0 where there is none.
abbrev pub window_of : Option (ℕ × ℕ × ℕ × ℕ) → ℕ × ℕ × ℕ × ℕ
window_of none = (0, 0, 0, 0)
window_of (some w) = w

abbrev pub IsWindow : Option (ℕ × ℕ × ℕ × ℕ) → Type 0
IsWindow none = Unit {0}
IsWindow (some (left, right, top, bottom)) = IsCode left × IsCode right × IsCode top × IsCode bottom

abbrev pub IsChroma : Option Chroma → Type 0
IsChroma none = Unit {0}
IsChroma (some c) = (c.format < 3) × IsCode c.luma_bit_depth × IsCode c.chroma_bit_depth

abbrev pub IsOrder : Option ℕ → Type 0
IsOrder none = Unit {0}
IsOrder (some v) = IsCode v

abbrev pub has_chroma : Option Chroma → Bool
has_chroma none = false
has_chroma (some c) = true

-- The pictures that stand one above the other for a row of map units: 1 for frames, 2 for fields.
abbrev pub rows : Picture → ℕ
rows p = if p.is_frame then 1 else 2

abbrev pub coded_width : Picture → ℕ
coded_width p = 16 * (p.width_in_mbs_minus1 + 1)

abbrev pub coded_height : Picture → ℕ
coded_height p = 16 * (rows p * (p.height_in_map_units_minus1 + 1))

-- `chroma_format_idc`, which is 1 (4:2:0) where a profile has none.
abbrev pub format_of : Option Chroma → ℕ
format_of none = 1
format_of (some c) = c.format

-- `CropUnitX` and `CropUnitY` of the standard: pixels for one step of an offset.
abbrev pub crop_unit_x : Syntax → ℕ
crop_unit_x s = if format_of s.chroma == 0 then 1 else 2

abbrev pub crop_unit_y : Syntax → ℕ
crop_unit_y s = (if format_of s.chroma == 1 then 2 else 1) * rows s.picture

abbrev pub beside : Picture → ℕ
beside p = (window_of p.crop).0 + (window_of p.crop).1

abbrev pub above_and_below : Picture → ℕ
above_and_below p = (window_of p.crop).2 + (window_of p.crop).3

-- The size by the standard's formulas.
abbrev pub size_of : Syntax → ℕ × ℕ
size_of s = (
  coded_width s.picture - crop_unit_x s * beside s.picture,
  coded_height s.picture - crop_unit_y s * above_and_below s.picture,
)

-- The numbers fit their codes, and the window the picture.
pub record IsPicture (p : Picture) : Type 0 where
  pub width_fits : IsCode p.width_in_mbs_minus1
  pub height_fits : IsCode p.height_in_map_units_minus1
  pub window_fits : IsWindow p.crop
  pub width_small : coded_width p < 2 ^ 32
  pub height_small : coded_height p < 2 ^ 32
  pub wide : 2 * beside p ≤ coded_width p
  pub high : 2 * above_and_below p ≤ coded_height p

-- There is no window, or one whose offsets count 2 pixels each: 4:2:0 in frames, or 4:2:2 in
-- fields.
abbrev pub CountsPairs : Syntax → Type 0
CountsPairs s = (s.picture.crop ≡ none) ⊎ ((crop_unit_x s ≡ 2) × (crop_unit_y s ≡ 2))

pub record IsSyntax (profile : ℕ) (s : Syntax) : Type 0 where
  pub id_fits : IsCode s.id
  pub chroma_fits : IsChroma s.chroma
  pub chroma_of_profile : has_chroma_format profile ≡ has_chroma s.chroma
  pub log2_fits : IsCode s.log2_max_frame_num
  pub order_fits : IsOrder s.order
  pub references_fit : IsCode s.references
  pub is_picture : IsPicture s.picture
  pub counts_pairs : CountsPairs s

abbrev pub sps_of : ℕ → ℕ → Syntax → Sps
sps_of profile level s = record {
  profile = profile;
  codec_level = level;
  width = (size_of s).0;
  height = (size_of s).1;
  fps = 0;
  id = s.id;
  max_nr_of_reference_frames = s.references;
  aspect_ratio_idc = 0;
  aspect_ratio_width = 0;
  aspect_ratio_height = 0;
}
