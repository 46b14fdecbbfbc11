-- ===== src/Nalu/BitReader.antt =====
-- `BitReader::ReadBit`, bit_reader.h, and `NalUnitBitstreamParser::ReadUEV`,
-- nal_unit_bitstream_parser.cpp.
use media_engine.Base.{
  ℕ, zero, suc, Option, none, some, [], length, ◌+◌, ◌-◌, ◌*◌, ◌/◌, ◌%◌, ◌^◌, ◌∷◌, ◌==◌,
  if◌then◌else◌,
}
use media_engine.Base.Bytes.{Bytes}

-- The bytes from `_position` to the end of the buffer, and `_bit_offset`.
pub record BitReader : Type 0 where
  pub remaining : Bytes
  pub bit_offset : ℕ

-- Behind a bit of the byte `b`.
unfoldable pub next_bit : ℕ → Bytes → ℕ → BitReader
next_bit b s offset =
    if offset == 7
    then record { remaining = s; bit_offset = 0 }
    else record { remaining = b ∷ s; bit_offset = offset + 1 }

unfoldable pub bit_at : Bytes → ℕ → Option (ℕ × BitReader)
unfolding next_bit
bit_at [] offset = none
bit_at (b ∷ s) offset = some (b / 2 ^ (7 - offset) % 2, next_bit b s offset)

-- `ReadBit(uint8_t &)`: none for false, which changes nothing.
unfoldable pub read_bit : BitReader → Option (ℕ × BitReader)
unfolding bit_at
read_bit r = bit_at r.remaining r.bit_offset

-- What a loop of `ReadUEV` comes to: false, no fuel left, or a number and the reader behind it.
pub data Read : Type 0 where
  failed stuck : Read
  found : ℕ → BitReader → Read

-- The first loop: `zero_bit_count` at the first bit that is not 0.
unfoldable pub leading_turn : (BitReader → ℕ → Read) → ℕ → Option (ℕ × BitReader) → Read
leading_turn again count none = failed
leading_turn again count (some (zero, r)) = again r (count + 1)
leading_turn again count (some (suc b, r)) = found count r

unfoldable pub leading_zeros : ℕ → BitReader → ℕ → Read
unfolding leading_turn read_bit
leading_zeros zero r count = stuck
leading_zeros (suc fuel) r count =
    leading_turn (λ r' count'. leading_zeros fuel r' count') count (read_bit r)

-- The second loop: `value` is shifted at 32 bits and the bit added.
unfoldable pub shift_in : ℕ → ℕ → ℕ
shift_in value zero = value * 2 % 2 ^ 32
shift_in value (suc b) = value * 2 % 2 ^ 32 + 1

unfoldable pub suffix_turn : (BitReader → ℕ → Read) → ℕ → Option (ℕ × BitReader) → Read
unfolding shift_in
suffix_turn again value none = failed
suffix_turn again value (some (b, r)) = again r (shift_in value b)

unfoldable pub suffix : ℕ → BitReader → ℕ → Read
unfolding suffix_turn read_bit
suffix zero r value = found value r
suffix (suc count) r value = suffix_turn (λ r' value'. suffix count r' value') value (read_bit r)

-- `value -= 1`, at 32 bits.
unfoldable pub less_one : Read → Read
less_one failed = failed
less_one stuck = stuck
less_one (found value r) = found ((value + 2 ^ 32 - 1) % 2 ^ 32) r

unfoldable pub after_leading : Read → Read
unfolding suffix less_one
after_leading failed = failed
after_leading stuck = stuck
after_leading (found count r) = less_one (suffix count r 1)

-- `ReadUEV`: each round of the first loop takes a bit.
unfoldable pub read_uev : BitReader → Read
unfolding leading_zeros after_leading
read_uev r = after_leading (leading_zeros (8 * length r.remaining + 1) r 0)

-- `ReadSEV`, where `before` is what the caller's `value` holds: the number that was read is changed
-- in a local variable only.
unfoldable pub keep_value : ℕ → Read → Read
keep_value before failed = failed
keep_value before stuck = stuck
keep_value before (found uev_value r) = found before r

unfoldable pub read_sev : ℕ → BitReader → Read
unfolding read_uev keep_value
read_sev before r = keep_value before (read_uev r)
