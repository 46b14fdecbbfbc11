-- ===== src/Bitstream/BitWriter.antt =====
-- `BitWriter` of common/src/core/bit_writer.{h,cpp}. A count is at most 32, as everywhere it is
-- called.
use media_engine.Base.{
  ℕ, zero, suc, bit_or, [], ltb, leb, length, take, replicate, ◌+◌, ◌-◌, ◌*◌, ◌/◌, ◌%◌, ◌^◌, ◌∷◌,
  ◌==◌, if◌then◌else◌,
}
use media_engine.Base.Bytes.{Bytes}

-- `_data` and `_bit_count`
pub record BitWriter : Type 0 where
  pub buffer : Bytes
  pub bit_count : ℕ

-- The constructor: a buffer of zeros.
abbrev pub new_bit_writer : ℕ → BitWriter
new_bit_writer size = record { buffer = replicate size 0; bit_count = 0 }

-- `*data |= value` at an index. The test in front of the loop keeps the index inside.
unfoldable pub or_at : ℕ → ℕ → Bytes → Bytes
or_at i v [] = []
or_at zero v (b ∷ s) = bit_or b v ∷ s
or_at (suc i) v (b ∷ s) = b ∷ or_at i v s

-- The loop of `Write` at a byte with `space` bits left; each round but the last fills its byte.
unfoldable pub write_loop : ℕ → ℕ → ℕ → ℕ → ℕ → BitWriter → BitWriter
unfolding or_at
write_loop zero i space count value w = w
write_loop (suc fuel) i space count value w =
    if count == 0
    then w
    else if leb count space
    then record {
      buffer = or_at i (value % 2 ^ count * 2 ^ (space - count)) w.buffer;
      bit_count = w.bit_count + count;
    }
    else write_loop fuel (suc i) 8 (count - space) value (record {
      buffer = or_at i (value % 2 ^ count / 2 ^ (count - space)) w.buffer;
      bit_count = w.bit_count + space;
    })

-- `Write`: what does not fit is dropped.
unfoldable pub write : ℕ → ℕ → BitWriter → BitWriter
unfolding write_loop
write count value w =
    if ltb (length w.buffer * 8) (w.bit_count + count)
    then w
    else write_loop (suc count) (w.bit_count / 8) (8 - w.bit_count % 8) count value w

-- `GetDataSize`, and the bytes that it counts.
unfoldable pub get_data_size : BitWriter → ℕ
get_data_size w = (w.bit_count + 7) / 8

unfoldable pub get_data : BitWriter → Bytes
unfolding get_data_size
get_data w = take (get_data_size w) w.buffer
