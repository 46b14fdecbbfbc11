-- ===== src/Nalu/Tests.antt =====
-- The theorems on NAL units at concrete bytes.
use media_engine.Base.{ℕ, refl, some, List, [], arith, length, ◌≡◌, ◌∷◌, ◌++◌}
use media_engine.Base.Bytes.{Bytes}
use media_engine.Nalu.Emulation.{overread, parsed, nal_unit_bitstream_parser}
use media_engine.Nalu.Unescape.{
  escape, nal_unit_bitstream_parser-escape, nal_unit_bitstream_parser-overread,
}
use media_engine.Nalu.Splitter.{split, fragment_header}
use media_engine.Nalu.Splitter.Fragments.{units_at, split-fragment_header}
use media_engine.Nalu.BitReader.{BitReader, found, read_uev}
use media_engine.Nalu.ExpGolomb.{bits, digits, read_uev-ue_bits}

abbrev payload : Bytes
payload = 0 ∷ 0 ∷ 1 ∷ 0 ∷ 0 ∷ 7 ∷ []

nal_unit_bitstream_parser-escape_example :
    nal_unit_bitstream_parser (escape payload ++ (0 ∷ [])) (length (escape payload))
    ≡ parsed payload
nal_unit_bitstream_parser-escape_example =
    nal_unit_bitstream_parser-escape payload (0 ∷ []) (omega arith)

abbrev unfit : Bytes
unfit = 0x67 ∷ 0 ∷ []

nal_unit_bitstream_parser-overread_example :
    nal_unit_bitstream_parser (unfit ++ (0 ∷ [])) (length (unfit ++ (0 ∷ []))) ≡ overread
nal_unit_bitstream_parser-overread_example = nal_unit_bitstream_parser-overread unfit

-- 00100, the code of 3, and 110.
abbrev reader : BitReader
reader = record { remaining = 0x26 ∷ []; bit_offset = 0 }

read_uev-ue_bits_example :
    (r' : BitReader) × (read_uev reader ≡ found 3 r') × (bits r' ≡ 1 ∷ 1 ∷ 0 ∷ [])
unfolding digits
read_uev-ue_bits_example =
    read_uev-ue_bits reader 3 (1 ∷ 1 ∷ 0 ∷ []) (omega arith) (omega arith) refl

-- Two units, behind a long start code and a short one.
abbrev two_units : Bytes
two_units = 9 ∷ 0 ∷ 0 ∷ 0 ∷ 1 ∷ 0x67 ∷ 5 ∷ 0 ∷ 0 ∷ 1 ∷ 0x68 ∷ []

two_units_found : split two_units ≡ some ((0x67 ∷ 5 ∷ []) ∷ (0x68 ∷ []) ∷ [])
unfolding split
two_units_found = refl

split-fragment_header_example :
    (fs : List (ℕ × ℕ)) × (fragment_header two_units ≡ some fs)
    × (split two_units ≡ some (units_at two_units fs))
split-fragment_header_example = split-fragment_header two_units
