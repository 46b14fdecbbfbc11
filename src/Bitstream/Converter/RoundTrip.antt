-- ===== src/Bitstream/Converter/RoundTrip.antt =====
-- NAL units through both conversions.
use media_engine.Base.{
  ℕ, zero, suc, refl, sym, ap, Bool, true, false, not, Option, some, List, [], append-nil,
  append_assoc, arith, lt→ltb, le→ltb, length, take, drop, All, length-append, take-append,
  drop-append, ◌+◌, ◌-◌, ◌≤◌, ◌<◌, ◌≡◌, ◌∙◌, ◌||◌, ◌∷◌, ◌++◌, ◌==◌, if◌then◌else◌,
}
use media_engine.Base.Bytes.{Bytes, be32, be32_value}
use media_engine.Nalu.Emulation.{nal_unit_bitstream_parser}
use media_engine.Nalu.BitReader.{BitReader}
use media_engine.Nalu.ReadBits.{read_bits, take_in}
use media_engine.Bitstream.Reading.{Outcome, Parser, pure, fail, ◌>>=◌, bits}
use media_engine.Bitstream.H264.{NalUnitHeader, idr_slice, nal_unit_header, parse_nal_unit_header}
use media_engine.Nalu.Splitter.{is_three_byte_code, is_four_byte_code}
use media_engine.Bitstream.Converter.{
  Converted, converted, Units, with_start_codes, see_header, with_unit, unit_turn, units_loop, nalu,
  convert_avcc_to_annexb, with_parameter_sets, start_pattern_size, write_unit, annexb_loop,
  convert_annexb_to_avcc,
}
use media_engine.Bitstream.Converter.Plain.{
  IsPlain, IsNalUnit, three_byte_code-plain, four_byte_code-plain,
}

-- Units with their lengths in front.
unfoldable pub with_lengths : List Bytes → Bytes
with_lengths [] = []
with_lengths (x ∷ xs) = be32 (length x) ++ (x ++ with_lengths xs)

start_pattern_size-plain :
    (a : ℕ) (s more : Bytes)
    → IsPlain (a ∷ s)
    → (if a == 0 then start_pattern_size ((a ∷ s) ++ more) else 0) ≡ 0
unfolding start_pattern_size
start_pattern_size-plain a s more h =
    rw (four_byte_code-plain a s more h, three_byte_code-plain a s more h) (ground arith)

drop_nil : (n : ℕ) → drop {A = ℕ} n [] ≡ []
drop_nil zero = refl
drop_nil (suc n) = refl

pub drop_add : (m n : ℕ) (xs : Bytes) → drop (m + n) xs ≡ drop n (drop m xs)
drop_add zero n xs = let e : 0 + n ≡ n = omega arith in ap (λ k. drop k xs) e
drop_add (suc m) n [] = drop_nil (suc m + n) ∙ sym (drop_nil n)
drop_add (suc m) n (x ∷ xs) =
    let e : suc m + n ≡ suc (m + n) = omega arith in ap (λ k. drop k (x ∷ xs)) e ∙ drop_add m n xs

module _ (packet : Bytes) where
  one_byte :
      (a : ℕ) (x more : Bytes) (fuel offset last : ℕ) (out : Bytes)
      → IsPlain (a ∷ x)
      → annexb_loop (suc fuel) packet ((a ∷ x) ++ more) offset last out
        ≡ annexb_loop fuel packet (x ++ more) (offset + 1) last out
  unfolding annexb_loop
  one_byte a x more fuel offset last out h = rw (annexb_loop, start_pattern_size-plain a x more h)

  -- The loop walks over a unit and changes nothing but the offset.
  walk :
      (x more : Bytes) (fuel offset last : ℕ) (out : Bytes) (result : Option Bytes)
      → IsPlain x
      → length (x ++ more) ≤ fuel
      → ((fuel' : ℕ)
          → length more ≤ fuel'
          → annexb_loop fuel' packet more (offset + length x) last out ≡ result)
      → annexb_loop fuel packet (x ++ more) offset last out ≡ result
  walk [] more fuel offset last out result h f k =
      let e : offset ≡ offset + 0 = omega arith in
      ap (λ o. annexb_loop fuel packet more o last out) e ∙ k fuel f
  walk (a ∷ x) more zero offset last out result h f k = absurd (omega arith)
  walk (a ∷ x) more (suc fuel) offset last out result h f k =
      one_byte a x more fuel offset last out h
      ∙ walk x more fuel (offset + 1) last out result h.1 (omega arith) (λ fuel' f'.
        let e : offset + 1 + length x ≡ offset + suc (length x) = omega arith in
        ap (λ o. annexb_loop fuel' packet more o last out) e ∙ k fuel' f')

  unit_pos : (x : Bytes) → IsNalUnit x → 0 < length x
  unit_pos x h = omega (arith, ap length h.unit_eq)

  write_unit_at :
      (x rest : Bytes) (last : ℕ)
      → 0 < length x
      → drop last packet ≡ x ++ rest
      → write_unit packet last (last + length x) ≡ be32 (length x) ++ x
  unfolding write_unit
  write_unit_at x rest last pos e =
      let count : last + length x - last ≡ length x = omega arith in
      rw (lt→ltb last (last + length x) (omega arith), count, e, take-append x rest)

  code_turn :
      (rest : Bytes) (fuel offset last : ℕ) (out unit : Bytes)
      → last < offset
      → write_unit packet last offset ≡ unit
      → annexb_loop (suc fuel) packet (0 ∷ 0 ∷ 0 ∷ 1 ∷ rest) offset last out
        ≡ annexb_loop fuel packet rest (offset + 4) (offset + 4) (out ++ unit)
  unfolding annexb_loop start_pattern_size is_four_byte_code is_three_byte_code
  code_turn rest fuel offset last out unit behind e = rw (e, lt→ltb last offset behind)

  -- What the loop writes from a start code on, with a unit before it that is not written yet.
  closes :
      (xs : List Bytes) (x : Bytes) (fuel last : ℕ) (out : Bytes)
      → IsNalUnit x
      → All IsNalUnit xs
      → drop last packet ≡ x ++ with_start_codes xs
      → length (with_start_codes xs) ≤ fuel
      → annexb_loop fuel packet (with_start_codes xs) (last + length x) last out
        ≡ some (out ++ with_lengths (x ∷ xs))
  unfolding with_start_codes with_lengths annexb_loop
  closes [] x fuel last out hx h e f =
      ap (λ u. some (out ++ u))
        (write_unit_at x [] last (unit_pos x hx) e
          ∙ ap (λ u. be32 (length x) ++ u) (sym (append-nil x)))
  closes (y ∷ ys) x zero last out hx h e f = absurd (omega arith)
  closes (y ∷ ys) x (suc fuel) last out hx h e f =
      let pos = unit_pos x hx in
      let behind = last + length x in
      let out' = out ++ (be32 (length x) ++ x) in
      let at_code : drop behind packet ≡ with_start_codes (y ∷ ys) =
        drop_add last (length x) packet
        ∙ ap (drop (length x)) e
        ∙ drop-append x (with_start_codes (y ∷ ys)) in
      let e' : drop (behind + 4) packet ≡ y ++ with_start_codes ys =
        drop_add behind 4 packet ∙ ap (drop 4) at_code in
      let joined : out' ++ with_lengths (y ∷ ys) ≡ out ++ with_lengths (x ∷ y ∷ ys) =
        append_assoc out (be32 (length x) ++ x) (with_lengths (y ∷ ys))
        ∙ ap (λ u. out ++ u) (append_assoc (be32 (length x)) x (with_lengths (y ∷ ys))) in
      code_turn (y ++ with_start_codes ys) fuel behind last out (be32 (length x) ++ x) (omega arith)
        (write_unit_at x (with_start_codes (y ∷ ys)) last pos e)
      ∙ (walk y (with_start_codes ys) fuel (behind + 4) (behind + 4) out' _ h.0.plain (omega arith)
          (λ fuel' f'. closes ys y fuel' (behind + 4) out' h.0 h.1 e' f' ∙ ap some joined))

-- The way back.
annexb_to_avcc :
    (xs : List Bytes)
    → All IsNalUnit xs
    → convert_annexb_to_avcc (with_start_codes xs) ≡ some (with_lengths xs)
unfolding convert_annexb_to_avcc with_start_codes with_lengths write_unit annexb_loop
annexb_to_avcc [] h = refl
annexb_to_avcc (x ∷ xs) h =
    let packet = with_start_codes (x ∷ xs) in
    walk packet x (with_start_codes xs) (suc (suc (suc (length (x ++ with_start_codes xs))))) 4 4 []
      (some (with_lengths (x ∷ xs))) h.0.plain (omega arith)
      (λ fuel' f'. closes packet xs x fuel' 4 [] h.0 h.1 refl f')

head_of : Bytes → ℕ
head_of [] = 0
head_of (b ∷ s) = b

-- Of a header byte that is not 0 there is an answer, and nothing behind it is read.
Sees : Bool → Outcome NalUnitHeader → Type 0
Sees seen o = (seen' : Bool) × (see_header seen o ≡ converted seen')

Sees-if :
    (seen c : Bool) (m : Parser NalUnitHeader) (r : BitReader)
    → Sees seen (m r)
    → Sees seen ((if c then fail else m) r)
unfolding Sees see_header
Sees-if seen true m r h = (seen, refl)
Sees-if seen false m r h = h

nal_unit_header-Sees : (seen : Bool) (b : ℕ) (s : Bytes) → Sees seen (nal_unit_header (suc b ∷ s) 1)
unfolding Sees see_header nal_unit_header parse_nal_unit_header nal_unit_bitstream_parser read_bits
nal_unit_header-Sees seen b s =
    Sees-if seen (not (take_in 8 0 1 0 (suc b) == 0))
      (bits 8 2 >>= λ idc. bits 8 5 >>= λ type. pure (record { nal_ref_idc = idc; type = type }))
      (record { remaining = suc b ∷ []; bit_offset = 1 })
      (seen || take_in 8 0 5 3 (suc b) == idr_slice, refl)

unit_header-Sees :
    (seen : Bool) (x more : Bytes) → IsNalUnit x → Sees seen (nal_unit_header (x ++ more) 1)
unfolding head_of
unit_header-Sees seen [] more h = absurd (omega (arith, ap length h.unit_eq))
unit_header-Sees seen (zero ∷ s) more h =
    let same : 0 ≡ h.header = ap head_of h.unit_eq in absurd (omega (arith, h.header_pos))
unit_header-Sees seen (suc b ∷ s) more h = nal_unit_header-Sees seen b (s ++ more)

unit_turn_at :
    (again : Bytes → Bool → Bytes → Converted Units) (size : ℕ) (x rest : Bytes) (seen seen' : Bool)
    (out : Bytes)
    → size ≡ length x
    → see_header seen (nal_unit_header (x ++ rest) 1) ≡ converted seen'
    → unit_turn again size (x ++ rest) seen out ≡ again rest seen' (out ++ (0 ∷ 0 ∷ 0 ∷ 1 ∷ x))
unfolding unit_turn with_unit
unit_turn_at again size x rest seen seen' out e first =
    let dropped : drop size (x ++ rest) ≡ rest =
      ap (λ n. drop n (x ++ rest)) e ∙ drop-append x rest in
    let taken : take size (x ++ rest) ≡ x = ap (λ n. take n (x ++ rest)) e ∙ take-append x rest in
    rw (
      le→ltb (length (x ++ rest)) size (omega (arith, e, length-append x rest)),
      first,
      with_unit,
      dropped,
      taken,
    )

-- The units in order, each behind a start code.
Converts : ℕ → List Bytes → Bool → Bytes → Type 0
Converts fuel xs seen out =
    (seen' : Bool) × (units_loop fuel (with_lengths xs) seen out
      ≡ converted (seen', out ++ with_start_codes xs))

units_loop-Converts :
    (xs : List Bytes) (fuel : ℕ) (seen : Bool) (out : Bytes)
    → All IsNalUnit xs
    → length (with_lengths xs) ≤ fuel
    → Converts fuel xs seen out
unfolding Converts Sees units_loop unit_turn with_unit with_lengths with_start_codes
units_loop-Converts [] fuel seen out h f =
    (seen, ap (λ u. converted (seen, u)) (sym (append-nil out)))
units_loop-Converts (x ∷ xs) zero seen out h f = absurd (omega arith)
units_loop-Converts (x ∷ xs) (suc fuel) seen out h f =
    let (seen₁, first) = unit_header-Sees seen x (with_lengths xs) h.0 in
    let out' = out ++ (0 ∷ 0 ∷ 0 ∷ 1 ∷ x) in
    let (seen₂, rest) =
      units_loop-Converts xs fuel seen₁ out' h.1
        (omega (arith, length-append x (with_lengths xs))) in
    (
      seen₂,
      unit_turn_at (λ s' seen' out''. units_loop fuel s' seen' out'') _ x (with_lengths xs) seen
            seen₁ out (be32_value (length x) ∙ omega (arith, h.0.fits)) first
          ∙ rest
          ∙ ap (λ u. converted (seen₂, u))
              (append_assoc out (0 ∷ 0 ∷ 0 ∷ 1 ∷ x) (with_start_codes xs)),
    )

-- NAL units, each with a header byte that is not 0, with no start code inside and with a length
-- that fits 32 bits. Behind their lengths they convert to the same units behind start codes, in the
-- same order, where no extradata is given; and these convert back to the very bytes of the packet.
pub convert_annexb_to_avcc-convert_avcc_to_annexb :
    (xs : List Bytes)
    → All IsNalUnit xs
    → (convert_avcc_to_annexb nalu (with_lengths xs) [] ≡ converted (with_start_codes xs))
      × (convert_annexb_to_avcc (with_start_codes xs) ≡ some (with_lengths xs))
unfolding convert_avcc_to_annexb Converts with_parameter_sets
convert_annexb_to_avcc-convert_avcc_to_annexb xs h =
    let (seen, forth) =
      units_loop-Converts xs (length (with_lengths xs)) false [] h (omega arith) in
    (ap (with_parameter_sets []) forth, annexb_to_avcc xs h)
