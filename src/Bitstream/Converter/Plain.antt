-- ===== src/Bitstream/Converter/Plain.antt =====
-- NAL units as the H.264 standard has them: no start code begins inside one.
use media_engine.Base.{
  ℕ, refl, Bool, true, false, not, [], arith, leb, length, ◌^◌, ◌<◌, ◌≡◌, ◌&&◌, ◌∷◌, ◌++◌, ◌==◌,
}
use media_engine.Base.Bytes.{Bytes}
use media_engine.Nalu.Splitter.{is_three_byte_code, is_four_byte_code}

-- 00 00 00 and 00 00 01 stand nowhere, and the last byte is not 0.
unfoldable pub no_code : Bytes → Bool
no_code [] = true
no_code (a ∷ []) = not (a == 0)
no_code (a ∷ b ∷ []) = true
no_code (a ∷ b ∷ c ∷ s) = not (a == 0 && (b == 0 && leb c 1))

abbrev pub IsPlain : Bytes → Type 0
IsPlain [] = Unit
IsPlain (a ∷ s) = (no_code (a ∷ s) ≡ true) × IsPlain s

-- A unit with a header, which is not 0, and a length that fits 32 bits.
pub record IsNalUnit (x : Bytes) : Type 0 where
  pub header : ℕ
  pub payload : Bytes
  pub unit_eq : x ≡ header ∷ payload
  pub header_pos : 0 < header
  pub plain : IsPlain x
  pub fits : length x < 2 ^ 32

pub three_byte_code-plain :
    (a : ℕ) (s more : Bytes) → IsPlain (a ∷ s) → is_three_byte_code ((a ∷ s) ++ more) ≡ false
unfolding is_three_byte_code no_code
three_byte_code-plain a [] [] h = refl
three_byte_code-plain a [] (x ∷ []) h = refl
three_byte_code-plain a [] (x ∷ y ∷ more) h = ground arith
three_byte_code-plain a (b ∷ []) [] h = refl
three_byte_code-plain a (b ∷ []) (x ∷ more) h = ground arith
three_byte_code-plain a (b ∷ c ∷ s) more h = ground arith

pub four_byte_code-plain :
    (a : ℕ) (s more : Bytes) → IsPlain (a ∷ s) → is_four_byte_code ((a ∷ s) ++ more) ≡ false
unfolding is_four_byte_code no_code
four_byte_code-plain a [] more h = ground arith
four_byte_code-plain a (b ∷ s) more h = rw (three_byte_code-plain b s more h.1) (ground arith)
