-- ===== src/Nalu/Emulation.antt =====
-- The constructor of `NalUnitBitstreamParser`, nal_unit_bitstream_parser.cpp, which takes the
-- emulation prevention bytes out of a NAL unit. The memory at the pointer is the list of the bytes
-- up to the end of its buffer; `length` is what the caller says of it.
use media_engine.Base.{
  ℕ, zero, suc, Bool, true, false, Option, none, some, [], length, take, drop, ◌-◌, ◌∷◌, ◌++◌, ◌==◌,
}
use media_engine.Base.Bytes.{Bytes}

-- What the loop comes to: a read behind the end of the memory, no fuel left, or `_bitstream`.
pub data Parsed : Type 0 where
  overread stuck : Parsed
  parsed : Bytes → Parsed

-- The test for 00 00 03 at the offset; `&&` reads no further than it must. Its bound,
-- `original_bitstream_offset < length + 2`, holds in every round and is left out.
unfoldable pub is_prevention : Bytes → Option Bool
is_prevention [] = none
is_prevention (zero ∷ []) = none
is_prevention (zero ∷ zero ∷ []) = none
is_prevention (zero ∷ zero ∷ c ∷ s) = some (c == 3)
is_prevention (zero ∷ suc c ∷ s) = some false
is_prevention (suc b ∷ s) = some false

unfoldable pub emplace : Bytes → Parsed → Parsed
emplace bytes overread = overread
emplace bytes stuck = stuck
emplace bytes (parsed out) = parsed (bytes ++ out)

-- A round: two zeros and a byte passed over, or one byte. `left` is `length` less the offset.
unfoldable pub round : (Bytes → ℕ → Parsed) → Option Bool → Bytes → ℕ → Parsed
unfolding emplace
round again none s left = overread
round again (some true) s left = emplace (0 ∷ 0 ∷ []) (again (drop 3 s) (left - 3))
round again (some false) s left = emplace (take 1 s) (again (drop 1 s) (left - 1))

unfoldable pub parser_loop : ℕ → Bytes → ℕ → Parsed
unfolding round is_prevention
parser_loop fuel s zero = parsed []
parser_loop zero s (suc left) = stuck
parser_loop (suc fuel) s (suc left) =
    round (λ s' left'. parser_loop fuel s' left') (is_prevention s) s (suc left)

-- The constructor: each round takes a byte at least.
unfoldable pub nal_unit_bitstream_parser : Bytes → ℕ → Parsed
unfolding parser_loop
nal_unit_bitstream_parser s length = parser_loop length s length
