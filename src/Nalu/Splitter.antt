-- ===== src/Nalu/Splitter.antt =====
-- common/src/media/bitstream/nalu: `NalUnitSplitter` and `NalUnitFragmentHeader` find the NAL units
-- between start codes.
pub mod Fragments
use media_engine.Base.{
  ℕ, zero, suc, Bool, true, false, not, Option, none, some, List, [], ltb, length, get_elem?, take,
  drop, ◌+◌, ◌-◌, ◌%◌, ◌^◌, ◌&&◌, ◌∷◌, ◌==◌, if◌then◌else◌,
}
use media_engine.Base.Bytes.{Bytes}

-- 00 00 01 and 00 00 00 01 in front; `&&` reads no byte behind the end.
unfoldable pub is_three_byte_code : Bytes → Bool
is_three_byte_code [] = false
is_three_byte_code (a ∷ []) = false
is_three_byte_code (a ∷ b ∷ []) = false
is_three_byte_code (a ∷ b ∷ c ∷ s) = a == 0 && (b == 0 && c == 1)

unfoldable pub is_four_byte_code : Bytes → Bool
unfolding is_three_byte_code
is_four_byte_code [] = false
is_four_byte_code (a ∷ s) = a == 0 && is_three_byte_code s

-- The number of bytes of the start code in front, 0 where there is none.
unfoldable pub start_code_size : Bytes → ℕ
unfolding is_three_byte_code is_four_byte_code
start_code_size s = if is_three_byte_code s then 3 else if is_four_byte_code s then 4 else 0

-- `Data(bitstream + start, length)`
abbrev pub slice : Bytes → ℕ → ℕ → Bytes
slice bytes start count = take count (drop start bytes)

-- What is put in front of the units that the rest of a loop finds; none is a loop out of fuel.
abbrev pub emplace_back : Bool → Bytes → Option (List Bytes) → Option (List Bytes)
emplace_back wanted unit none = none
emplace_back true unit (some units) = some (unit ∷ units)
emplace_back false unit (some units) = some units

-- The end of a round of `NalUnitSplitter::Parse`: the last unit.
unfoldable pub last_unit : Bytes → ℕ → ℕ → Option (List Bytes) → Option (List Bytes)
last_unit bytes offset start units =
    emplace_back (offset == length bytes && not (start == 0)) (slice bytes start (offset - start))
      units

-- The loop of `NalUnitSplitter::Parse`; `rest` are the bytes from the offset on, of which a round
-- takes one at least.
unfoldable pub split_loop : ℕ → Bytes → Bytes → ℕ → ℕ → Option (List Bytes)
unfolding last_unit start_code_size
split_loop fuel bytes [] offset start = some []
split_loop zero bytes (b ∷ s) offset start = none
split_loop (suc fuel) bytes (b ∷ s) offset start =
    let size = start_code_size (b ∷ s) in
    elim (size == 0) [
      | true ↦ last_unit bytes (offset + 1) start (split_loop fuel bytes s (offset + 1) start)
      | false ↦ emplace_back (not (start == 0)) (slice bytes start (offset - start)) (
          last_unit bytes (offset + size) (offset + size)
            (split_loop fuel bytes (drop size (b ∷ s)) (offset + size) (offset + size)))
    ]

-- `NalUnitSplitter::Parse`
unfoldable pub split : Bytes → Option (List Bytes)
unfolding split_loop
split bytes = split_loop (length bytes) bytes bytes 0 0

-- A start code's place and size.
abbrev pub Code : Type 0
Code = ℕ × ℕ

abbrev pub add_code : Code → Option (List Code) → Option (List Code)
add_code c none = none
add_code c (some cs) = some (c ∷ cs)

-- `offset_list` of `NalUnitFragmentHeader::Parse`.
unfoldable pub offset_loop : ℕ → Bytes → ℕ → Option (List Code)
unfolding start_code_size
offset_loop fuel [] offset = some []
offset_loop zero (b ∷ s) offset = none
offset_loop (suc fuel) (b ∷ s) offset =
    let size = start_code_size (b ∷ s) in
    elim (size == 0) [
      | true ↦ offset_loop fuel s (offset + 1)
      | false ↦ add_code (offset, size) (offset_loop fuel (drop size (b ∷ s)) (offset + size))
    ]

-- The second loop: where each unit starts, and its length.
unfoldable pub fragments : ℕ → List Code → List (ℕ × ℕ)
fragments total [] = []
fragments total ((offset, size) ∷ []) = (offset + size, total - (offset + size)) ∷ []
fragments total ((offset, size) ∷ (next, size') ∷ codes) =
    (offset + size, next - (offset + size)) ∷ fragments total ((next, size') ∷ codes)

-- `NalUnitFragmentHeader::Parse`: `fragmentation_offset` and `fragmentation_length`, entry by
-- entry.
unfoldable pub fragment_header : Bytes → Option (List (ℕ × ℕ))
unfolding offset_loop fragments
fragment_header bytes = elim (offset_loop (length bytes) bytes 0) [
  | none ↦ none
  | some codes ↦ some (fragments (length bytes) codes)
]

-- What `GetNalUnit` comes to: null, a read behind the list, or the unit.
pub data Got : Type 0 where
  null overread : Got
  unit : Bytes → Got

-- `GetNalUnit`: `GetCount() - 1` wraps at 32 bits, so that an empty list is read.
unfoldable pub get_nal_unit : List Bytes → ℕ → Got
get_nal_unit units index =
    if ltb ((length units + 2 ^ 32 - 1) % 2 ^ 32) index
    then null
    else elim (get_elem? units index) [ none ↦ overread | some x ↦ unit x ]
