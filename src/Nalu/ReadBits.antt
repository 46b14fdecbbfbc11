-- ===== src/Nalu/ReadBits.antt =====
-- `BitReader::ReadBits` and `ReadBytes<uint8_t>`, bit_reader.h.
use media_engine.Base.{
  ℕ, zero, suc, min, [], ltb, leb, length, ◌+◌, ◌-◌, ◌*◌, ◌/◌, ◌%◌, ◌^◌, ◌∷◌, ◌==◌, if◌then◌else◌,
}
use media_engine.Base.Bytes.{Bytes}
use media_engine.Nalu.BitReader.{BitReader}

-- What a read comes to: false, a read behind the end of the buffer, no fuel left, or the value.
pub data BitsRead : Type 0 where
  refused overread stuck : BitsRead
  value_of : ℕ → BitReader → BitsRead

-- `bits_from_this_byte`
unfoldable pub bits_from_this_byte : ℕ → ℕ → ℕ
bits_from_this_byte bits offset = min (if leb 8 bits then 8 else bits % 8) (8 - offset)

-- The byte behind which `n` bits more were taken, `_bit_offset` being `offset` before.
unfoldable pub advance : ℕ → Bytes → ℕ → BitReader
advance b s offset =
    if offset == 8
    then record { remaining = s; bit_offset = 0 }
    else record { remaining = b ∷ s; bit_offset = offset }

-- `value <<= n; value |= (*_position & mask) >> mask_offset` in a type of `width` bits.
unfoldable pub take_in : ℕ → ℕ → ℕ → ℕ → ℕ → ℕ
take_in width value n offset b = (value * 2 ^ n + b / 2 ^ (8 - n - offset) % 2 ^ n) % 2 ^ width

-- The rounds of `ReadBits`, for which as much fuel as bits is enough.
unfoldable pub bits_loop : ℕ → ℕ → Bytes → ℕ → ℕ → ℕ → BitsRead
unfolding bits_from_this_byte advance take_in
bits_loop fuel width s offset zero value =
    value_of value (record { remaining = s; bit_offset = offset })
bits_loop zero width s offset (suc bits) value = stuck
bits_loop (suc fuel) width [] offset (suc bits) value = overread
bits_loop (suc fuel) width (b ∷ s) offset (suc bits) value =
    let n = bits_from_this_byte (suc bits) offset in
    let r = advance b s (offset + n) in
    bits_loop fuel width r.remaining r.bit_offset (suc bits - n) (take_in width value n offset b)

-- `ReadBits(bits, value)`: 0 bits count as a failure, and the test for the end leaves out
-- `_bit_offset`.
unfoldable pub read_bits : ℕ → ℕ → BitReader → BitsRead
unfolding bits_loop
read_bits width bits r =
    if ltb width bits
    then refused
    else if bits == 0
    then refused
    else if ltb (length r.remaining) ((bits + 7) / 8)
    then refused
    else bits_loop bits width r.remaining r.bit_offset bits 0

-- `ReadBytes<uint8_t>`: the byte at the position, whatever `_bit_offset` is.
unfoldable pub byte_of : Bytes → ℕ → BitsRead
byte_of [] offset = refused
byte_of (b ∷ s) offset = value_of b (record { remaining = s; bit_offset = offset })

unfoldable pub read_byte : BitReader → BitsRead
unfolding byte_of
read_byte r = byte_of r.remaining r.bit_offset
