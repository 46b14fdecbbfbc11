-- ===== src/Bitstream/Converter/Splits.antt =====
-- `NalUnitSplitter` on what the converter writes.
use media_engine.Base.{
  ℕ, zero, suc, refl, ap, Option, some, List, [], append-nil, arith, length, drop, All, length-drop,
  take-append, drop-append, ◌+◌, ◌-◌, ◌≤◌, ◌≡◌, ◌∙◌, ◌∷◌, ◌++◌,
}
use media_engine.Base.Bytes.{Bytes}
use media_engine.Nalu.Splitter.{
  start_code_size, is_three_byte_code, is_four_byte_code, slice, split, Code, add_code, offset_loop,
  fragments,
}
use media_engine.Nalu.Splitter.Fragments.{units_at, split-codes}
use media_engine.Bitstream.Converter.{with_start_codes, nalu, converted, convert_avcc_to_annexb}
use media_engine.Bitstream.Converter.Plain.{
  IsPlain, IsNalUnit, three_byte_code-plain, four_byte_code-plain,
}
use media_engine.Bitstream.Converter.RoundTrip.{
  with_lengths, drop_add, convert_annexb_to_avcc-convert_avcc_to_annexb,
}

start_code_size-plain :
    (a : ℕ) (s more : Bytes) → IsPlain (a ∷ s) → start_code_size ((a ∷ s) ++ more) ≡ 0
unfolding start_code_size
start_code_size-plain a s more h =
    rw (three_byte_code-plain a s more h, four_byte_code-plain a s more h)

one_byte :
    (a : ℕ) (x more : Bytes) (fuel offset : ℕ)
    → IsPlain (a ∷ x)
    → offset_loop (suc fuel) ((a ∷ x) ++ more) offset ≡ offset_loop fuel (x ++ more) (offset + 1)
unfolding offset_loop
one_byte a x more fuel offset h = rw (offset_loop, start_code_size-plain a x more h)

-- The loop walks over a unit.
walk :
    (x more : Bytes) (fuel offset : ℕ) (result : Option (List Code))
    → IsPlain x
    → length (x ++ more) ≤ fuel
    → ((fuel' : ℕ) → length more ≤ fuel' → offset_loop fuel' more (offset + length x) ≡ result)
    → offset_loop fuel (x ++ more) offset ≡ result
walk [] more fuel offset result h f k =
    let e : offset ≡ offset + 0 = omega arith in ap (offset_loop fuel more) e ∙ k fuel f
walk (a ∷ x) more zero offset result h f k = absurd (omega arith)
walk (a ∷ x) more (suc fuel) offset result h f k =
    one_byte a x more fuel offset h
    ∙ walk x more fuel (offset + 1) result h.1 (omega arith) (λ fuel' f'.
      let e : offset + 1 + length x ≡ offset + suc (length x) = omega arith in
      ap (offset_loop fuel' more) e ∙ k fuel' f')

codes_of : ℕ → List Bytes → List Code
codes_of offset [] = []
codes_of offset (x ∷ xs) = (offset, 4) ∷ codes_of (offset + 4 + length x) xs

offset_loop-codes :
    (xs : List Bytes) (fuel offset : ℕ)
    → All IsNalUnit xs
    → length (with_start_codes xs) ≤ fuel
    → offset_loop fuel (with_start_codes xs) offset ≡ some (codes_of offset xs)
unfolding with_start_codes codes_of offset_loop start_code_size is_three_byte_code is_four_byte_code
offset_loop-codes [] fuel offset h f = refl
offset_loop-codes (x ∷ xs) zero offset h f = absurd (omega arith)
offset_loop-codes (x ∷ xs) (suc fuel) offset h f = ap (add_code (offset, 4)) (
    walk x (with_start_codes xs) fuel (offset + 4) _ h.0.plain (omega arith)
      (λ fuel' f'. offset_loop-codes xs fuel' (offset + 4 + length x) h.1 f'))

units_at-codes :
    (bytes : Bytes) (xs : List Bytes) (offset : ℕ)
    → drop offset bytes ≡ with_start_codes xs
    → units_at bytes (fragments (length bytes) (codes_of offset xs)) ≡ xs
unfolding units_at fragments codes_of with_start_codes
units_at-codes bytes [] offset e = refl
units_at-codes bytes (x ∷ []) offset e =
    let at_unit : drop (offset + 4) bytes ≡ x ++ [] = drop_add offset 4 bytes ∙ ap (drop 4) e in
    let count : length bytes - (offset + 4) ≡ length x =
      omega (arith, ap length e, ap length (append-nil x), length-drop offset bytes) in
    ap (λ u. u ∷ []) (rw (count, at_unit) (take-append x []))
units_at-codes bytes (x ∷ y ∷ ys) offset e =
    let at_unit : drop (offset + 4) bytes ≡ x ++ with_start_codes (y ∷ ys) =
      drop_add offset 4 bytes ∙ ap (drop 4) e in
    let count : offset + 4 + length x - (offset + 4) ≡ length x = omega arith in
    let behind : drop (offset + 4 + length x) bytes ≡ with_start_codes (y ∷ ys) =
      drop_add (offset + 4) (length x) bytes
      ∙ ap (drop (length x)) at_unit
      ∙ drop-append x (with_start_codes (y ∷ ys)) in
    let first : slice bytes (offset + 4) (offset + 4 + length x - (offset + 4)) ≡ x =
      rw (count, at_unit) (take-append x (with_start_codes (y ∷ ys))) in
    let others = units_at-codes bytes (y ∷ ys) (offset + 4 + length x) behind in
    ap
      (λ u.
        u ∷ units_at bytes (fragments (length bytes) (codes_of (offset + 4 + length x) (y ∷ ys))))
      first
    ∙ ap (λ us. x ∷ us) others

-- NAL units, each with a header byte that is not 0, with no start code inside and with a length
-- that fits 32 bits: what `ConvertAvccToAnnexb` makes of them, given behind their lengths and
-- without extradata, `NalUnitSplitter` takes apart into the same units in the same order.
pub split-convert_avcc_to_annexb :
    (xs : List Bytes)
    → All IsNalUnit xs
    → (bytes : Bytes) × (convert_avcc_to_annexb nalu (with_lengths xs) [] ≡ converted bytes)
      × (split bytes ≡ some xs)
split-convert_avcc_to_annexb xs h =
    let bytes = with_start_codes xs in
    (
      bytes,
      (convert_annexb_to_avcc-convert_avcc_to_annexb xs h).0,
      split-codes bytes (codes_of 0 xs) (offset_loop-codes xs (length bytes) 0 h (omega arith))
          ∙ ap some (units_at-codes bytes xs 0 refl),
    )
