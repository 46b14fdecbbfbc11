-- ===== src/Bitstream/H264/Sps/Reads.antt =====
-- What `H264Parser::ParseSPS` reads off the fields of a parameter set, part by part.
use media_engine.Base.{
  ℕ, refl, ap, inl, inr, Bool, true, false, Option, none, some, [], arith, ◌+◌, ◌-◌, ◌*◌, ◌^◌, ◌≤◌,
  ◌<◌, ◌≡◌, ◌∙◌, ◌∷◌, ◌++◌, ◌==◌, if◌then◌else◌,
}
use native.Mathlib.Nat.{mul-zero}
use media_engine.Nalu.ExpGolomb.{ue_bits}
use media_engine.Bitstream.Reading.{pure, ◌>>=◌, bit}
use media_engine.Bitstream.Reading.Reads.{
  Reads, Reads-pure, Reads-bit, Reads-uev, Reads-bind, Reads-then, Reads-value, Reads-map, Reads-if,
}
use media_engine.Bitstream.H264.Sps.{
  Sps, has_chroma_format, chroma_format, pic_order, cropping, width_of, height_of, picture_size,
  vui_parameters, sps_fields,
}
use media_engine.Bitstream.H264.Sps.Layout.{
  IsCode, Chroma, Picture, Syntax, chroma_bits, order_type, order_bits, crop_bits, picture_bits,
  syntax_bits, window_of, IsWindow, IsChroma, IsOrder, has_chroma, IsSyntax, IsPicture, CountsPairs,
  crop_unit_x, crop_unit_y, coded_width, coded_height, beside, above_and_below, size_of, sps_of,
}

Reads-cropping :
    (crop : Option (ℕ × ℕ × ℕ × ℕ))
    → IsWindow crop
    → Reads cropping (crop_bits crop) (window_of crop)
unfolding cropping
Reads-cropping none h = Reads-bind _ (Reads-bit 0) (Reads-pure (0, 0, 0, 0))
Reads-cropping (some (left, right, top, bottom)) (hl, hr, ht, hb) = Reads-bind _ (Reads-bit 1) (
    Reads-bind _ (Reads-uev left hl) (
      Reads-bind _ (Reads-uev right hr) (
        Reads-bind _ (Reads-uev top ht)
          (Reads-map (λ b. (left, right, top, b)) (Reads-uev bottom hb)))))

below_three : (n : ℕ) → n < 3 → (n == 3) ≡ true → ⊥
below_three n h e = ground arith

Reads-chroma_format :
    (c : Chroma) → IsChroma (some c) → Reads chroma_format (chroma_bits (some c)) 0
unfolding chroma_format
Reads-chroma_format c (hf, hl, hc) = Reads-bind _ (Reads-uev c.format (omega (arith, hf))) (
    Reads-bind _
      (Reads-if (c.format == 3) _ _ (λ e. absurd (below_three c.format hf e)) (λ e. Reads-pure 0))
      (Reads-bind _ (Reads-uev c.luma_bit_depth hl) (
        Reads-bind _ (Reads-uev c.chroma_bit_depth hc)
          (Reads-bind _ (Reads-bit c.bypass) (Reads-bind _ (Reads-bit 0) (Reads-pure 0))))))

chroma_if :
    (chroma : Option Chroma)
    → IsChroma chroma
    → Reads (if has_chroma chroma then chroma_format else pure 0) (chroma_bits chroma) 0
chroma_if none h = Reads-pure 0
chroma_if (some c) h = Reads-chroma_format c h

pub Reads-chroma :
    (profile : ℕ) (chroma : Option Chroma)
    → has_chroma_format profile ≡ has_chroma chroma
    → IsChroma chroma
    → Reads (if has_chroma_format profile then chroma_format else pure 0) (chroma_bits chroma) 0
Reads-chroma profile chroma e h = rw e (chroma_if chroma h)

-- What `pic_order` returns, which nothing looks at.
abbrev pub order_value : Option ℕ → ℕ
order_value none = 0
order_value (some v) = v

IsCode-order_type : (order : Option ℕ) → IsCode (order_type order)
IsCode-order_type none = omega arith
IsCode-order_type (some v) = omega arith

pub Reads-pic_order :
    (order : Option ℕ)
    → IsOrder order
    → Reads (pic_order (order_type order)) (order_bits order) (order_value order)
unfolding pic_order
Reads-pic_order none h = Reads-pure 0
Reads-pic_order (some v) h = Reads-uev v h

-- What follows the flag of the frames.
cropped :
    (w h frame_mbs_only_flag direct : ℕ) (crop : Option (ℕ × ℕ × ℕ × ℕ))
    → IsWindow crop
    → Reads {A = ℕ × ℕ}
        (bit >>= λ flag. cropping >>= λ (left, right, top, bottom).
          pure (width_of w left right, height_of frame_mbs_only_flag h top bottom))
        (direct ∷ crop_bits crop)
        (
          width_of w (window_of crop).0 (window_of crop).1,
          height_of frame_mbs_only_flag h (window_of crop).2 (window_of crop).3,
        )
cropped w h frame_mbs_only_flag direct crop hc = Reads-then _ (Reads-bit direct) (
    Reads-map
      (λ (left, right, top, bottom).
        (width_of w left right, height_of frame_mbs_only_flag h top bottom))
      (Reads-cropping crop hc))

-- The code's width and height, of a window inside a picture of less than 32 bits.
width_of-window :
    (w left right : ℕ)
    → 16 * (w + 1) < 2 ^ 32
    → 2 * (left + right) ≤ 16 * (w + 1)
    → width_of w left right ≡ 16 * (w + 1) - 2 * (left + right)
unfolding width_of
width_of-window w left right small inside = omega arith

height_of-window :
    (h top bottom : ℕ) (is_frame : Bool)
    → let coded = 16 * ((if is_frame then 1 else 2) * (h + 1)) in
      coded < 2 ^ 32
      → 2 * (top + bottom) ≤ coded
      → height_of (if is_frame then 1 else 0) h top bottom ≡ coded - 2 * (top + bottom)
unfolding height_of
height_of-window h top bottom true small inside = omega arith
height_of-window h top bottom false small inside = omega arith

frame_branch :
    (w h : ℕ) (is_frame : Bool) (mb direct : ℕ) (crop : Option (ℕ × ℕ × ℕ × ℕ))
    → IsCode w
    → IsCode h
    → IsWindow crop
    → let window = window_of crop in
      Reads picture_size
        (ue_bits w
          ++ (ue_bits h
              ++ ((if is_frame then 1 ∷ [] else 0 ∷ mb ∷ []) ++ (direct ∷ crop_bits crop))))
        (width_of w window.0 window.1, height_of (if is_frame then 1 else 0) h window.2 window.3)
unfolding picture_size
frame_branch w h true mb direct crop hw hh hc = Reads-bind _ (Reads-uev w hw) (
    Reads-bind _ (Reads-uev h hh) (
      Reads-bind _ (Reads-bit 1)
        (Reads-then {A = ℕ} _ (Reads-pure 0) (cropped w h 1 direct crop hc))))
frame_branch w h false mb direct crop hw hh hc = Reads-bind _ (Reads-uev w hw) (
    Reads-bind _ (Reads-uev h hh)
      (Reads-bind _ (Reads-bit 0) (Reads-then _ (Reads-bit mb) (cropped w h 0 direct crop hc))))

-- The size as the code has it, 2 pixels for each step of an offset.
abbrev paired_size : Picture → ℕ × ℕ
paired_size p = (coded_width p - 2 * beside p, coded_height p - 2 * above_and_below p)

Reads-picture_size :
    (p : Picture) → IsPicture p → Reads picture_size (picture_bits p) (paired_size p)
Reads-picture_size p hp =
    let (left, right, top, bottom) = window_of p.crop in
    let width = width_of-window p.width_in_mbs_minus1 left right hp.width_small hp.wide in
    let height =
      height_of-window p.height_in_map_units_minus1 top bottom p.is_frame hp.height_small hp.high in
    Reads-value
      (ap
          (λ v.
            (v, height_of (if p.is_frame then 1 else 0) p.height_in_map_units_minus1 top bottom))
          width
        ∙ ap (λ v. ((paired_size p).0, v)) height)
      (frame_branch p.width_in_mbs_minus1 p.height_in_map_units_minus1 p.is_frame p.mb_adaptive
        p.direct_8x8_inference p.crop hp.width_fits hp.height_fits hp.window_fits)

no_window :
    (s : Syntax) → s.picture.crop ≡ none → (beside s.picture ≡ 0) × (above_and_below s.picture ≡ 0)
no_window s e = (rw e refl, rw e refl)

paired_size_lem : (s : Syntax) → CountsPairs s → paired_size s.picture ≡ size_of s
paired_size_lem s (inl e) =
    let (x, y) = no_window s e in rw (x, y, mul-zero (crop_unit_x s), mul-zero (crop_unit_y s)) refl
paired_size_lem s (inr (x, y)) = rw (x, y) refl

Reads-vui_parameters : (sps : Sps) → Reads (vui_parameters sps) (0 ∷ []) sps
unfolding vui_parameters
Reads-vui_parameters sps = Reads-bind _ (Reads-bit 0) (Reads-pure sps)

-- What follows the level, for every parameter set whose numbers fit.
pub Reads-sps_fields :
    (profile level : ℕ) (s : Syntax)
    → IsSyntax profile s
    → Reads (sps_fields profile level) (syntax_bits s) (sps_of profile level s)
unfolding sps_fields
Reads-sps_fields profile level s h = Reads-bind _ (Reads-uev s.id h.id_fits) (
    Reads-bind _ (Reads-chroma profile s.chroma h.chroma_of_profile h.chroma_fits) (
      Reads-bind _ (Reads-uev s.log2_max_frame_num h.log2_fits) (
        Reads-bind _ (Reads-uev (order_type s.order) (IsCode-order_type s.order)) (
          Reads-bind _ (Reads-pic_order s.order h.order_fits) (
            Reads-bind _ (Reads-uev s.references h.references_fit) (
              Reads-bind _ (Reads-bit s.gaps) (
                Reads-bind _
                  (Reads-value (paired_size_lem s h.counts_pairs)
                    (Reads-picture_size s.picture h.is_picture))
                  (Reads-vui_parameters (sps_of profile level s)))))))))
