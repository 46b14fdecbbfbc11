-- ===== src/Bitstream/Reading.antt =====
-- The readers of `BitReader` and `NalUnitBitstreamParser` as steps of a parser that returns false
-- where one of them does.
pub mod Ends
pub mod Reads
use media_engine.Base.{ℕ, Option, none, some, ltb, length, drop, if◌then◌else◌}
use media_engine.Nalu.Emulation.{Parsed}
use media_engine.Nalu.Emulation
use media_engine.Nalu.BitReader.{BitReader, Read, read_bit, read_uev, read_sev}
use media_engine.Nalu.BitReader
use media_engine.Nalu.ReadBits.{BitsRead, value_of, read_bits}
use media_engine.Nalu.ReadBits

-- `rejected` is false, `crash` a read behind the end or a division by 0, `stuck` a loop out of
-- fuel.
pub data Outcome {ℓ} (A : Type ℓ) : Type ℓ where
  rejected crash stuck : Outcome A
  done : A → BitReader → Outcome A

abbrev pub Parser {ℓ} : Type ℓ → Type ℓ
Parser A = BitReader → Outcome A

abbrev pub pure {ℓ} : {A : Type ℓ} → A → Parser A
pure a r = done a r

abbrev pub fail {ℓ} : {A : Type ℓ} → Parser A
fail r = rejected

abbrev pub continue {ℓ κ} : {A : Type ℓ} {B : Type κ} → Outcome A → (A → Parser B) → Outcome B
continue rejected f = rejected
continue crash f = crash
continue stuck f = stuck
continue (done a r) f = f a r

infixl 5 ◌>>=◌ ◌>>◌
abbrev pub ◌>>=◌ {ℓ κ} : {A : Type ℓ} {B : Type κ} → Parser A → (A → Parser B) → Parser B
◌>>=◌ m f r = continue (m r) f

abbrev pub ◌>>◌ {ℓ κ} : {A : Type ℓ} {B : Type κ} → Parser A → Parser B → Parser B
m >> n = m >>= λ _. n

abbrev pub of_bits : BitsRead → Outcome ℕ
of_bits BitsRead.refused = rejected
of_bits BitsRead.overread = crash
of_bits BitsRead.stuck = stuck
of_bits (value_of v r) = done v r

-- `ReadBits(count, value)` with a value of `width` bits.
unfoldable pub bits : ℕ → ℕ → Parser ℕ
bits width count r = of_bits (read_bits width count r)

-- `ReadU8`, `ReadU16`, `ReadU32` and `Skip`, whose dummy has 64 bits.
abbrev pub u8 : Parser ℕ
u8 = bits 8 8

abbrev pub u16 : Parser ℕ
u16 = bits 16 16

abbrev pub u32 : Parser ℕ
u32 = bits 32 32

abbrev pub skip : ℕ → Parser ℕ
skip = bits 64

abbrev pub of_bit : Option (ℕ × BitReader) → Outcome ℕ
of_bit none = rejected
of_bit (some (b, r)) = done b r

-- `ReadBit`
unfoldable pub bit : Parser ℕ
bit r = of_bit (read_bit r)

abbrev pub of_read : Read → Outcome ℕ
of_read Read.failed = rejected
of_read Read.stuck = stuck
of_read (Read.found v r) = done v r

-- `ReadUEV`; and `ReadSEV`, where nothing looks at the value.
unfoldable pub uev : Parser ℕ
uev r = of_read (read_uev r)

unfoldable pub sev : Parser ℕ
sev r = of_read (read_sev 0 r)

-- `SkipBytes`
unfoldable pub skip_bytes : ℕ → Parser ℕ
skip_bytes count r =
    if ltb (length r.remaining) count
    then rejected
    else done count (record r { remaining = drop count r.remaining })

-- A parser run on what the constructor of `NalUnitBitstreamParser` makes of a NAL unit.
abbrev pub run_on {ℓ} : {A : Type ℓ} → Parser A → Parsed → Outcome A
run_on m Parsed.overread = crash
run_on m Parsed.stuck = stuck
run_on m (Parsed.parsed bytes) = m (record { remaining = bytes; bit_offset = 0 })
