-- ===== src/Amf/Decode.antt =====
-- `Decode` of `AmfUtil`, `AmfProperty` and `AmfObjectArray` in amf_document.cpp. The memory at a
-- pointer is the list of the bytes up to the end of its buffer; `data_length` is what the caller
-- says of it, and the source does not compare the two. `int` counts stay small: a size is never
-- more than the memory's.
use media_engine.Base.{
  ℕ, zero, suc, Bool, true, false, not, Option, none, some, [], ltb, leb, length, get_elem?, drop,
  ◌+◌, ◌-◌, ◌*◌, ◌∷◌, ◌==◌, if◌then◌else◌,
}
use media_engine.Base.Bytes.{Bytes}
use mathlib.Core.Option
use media_engine.Amf.Value.{
  AmfProperty, Pairs, pair, AmfTypeMarker, number, boolean, string, object, movie_clip, null,
  undefined, reference, ecma_array, object_end, strict_array, date, long_string, unsupported,
  recordset, xml, typed_object,
}
use media_engine.Amf.Encode.{start_marker}

-- What a call comes to: 0 (fail), a read behind the end of the memory, a write behind the end of
-- `_name`, no fuel left, or a value and the number of bytes that it took.
pub data Decoded {ℓ} (A : Type ℓ) : Type ℓ where
  fail overread overflow stuck : Decoded A
  decoded : A → ℕ → Decoded A

-- The marker in a byte; none of another byte's cases is in the source.
unfoldable pub to_marker : ℕ → Option AmfTypeMarker
to_marker b =
    get_elem?
      (number ∷ boolean ∷ string ∷ object ∷ movie_clip ∷ null ∷ undefined ∷ reference ∷ ecma_array
        ∷ object_end ∷ strict_array ∷ date ∷ long_string ∷ unsupported ∷ recordset ∷ xml
        ∷ typed_object ∷ [])
      b

-- `strncpy` of `n` bytes into a buffer as long, which a 0 ends at the latest: the text before the
-- first 0. Nothing when the memory ends before either.
unfoldable pub strncpy : ℕ → Bytes → Option Bytes
strncpy zero s = some []
strncpy (suc n) [] = none
strncpy (suc n) (zero ∷ s) = some []
strncpy (suc n) (suc b ∷ s) = Option.map (λ t. suc b ∷ t) (strncpy n s)

-- `AmfUtil::ReadInt16` and `ReadInt32`: the value, or nothing when the memory ends.
unfoldable pub read_int16 : Bytes → Option ℕ
read_int16 (b ∷ c ∷ s) = some (b * 256 + c)
read_int16 _ = none

unfoldable pub read_int32 : Bytes → Option ℕ
read_int32 (b ∷ c ∷ d ∷ e ∷ s) = some (b * 16777216 + c * 65536 + d * 256 + e)
read_int32 _ = none

-- `AmfUtil::DecodeNumber`, behind its marker: the 64 bits of the double.
unfoldable pub decode_number : Bytes → Decoded AmfProperty
decode_number s = elim (read_int32 s) [
  | none ↦ overread
  | some high ↦ elim (read_int32 (drop 4 s)) [
    | none ↦ overread
    | some low ↦ decoded (AmfProperty.number (high * 4294967296 + low)) 9
  ]
]

-- `AmfUtil::DecodeBoolean`, behind its marker.
unfoldable pub decode_boolean : Bytes → Decoded AmfProperty
decode_boolean [] = overread
decode_boolean (b ∷ s) = decoded (AmfProperty.boolean (not (b == 0))) 2

-- The text that was copied, and the size of a string of that length.
unfoldable pub copied : ℕ → Option Bytes → Decoded AmfProperty
copied str_len none = overread
copied str_len (some t) = decoded (AmfProperty.string t) (3 + str_len)

-- `AmfUtil::DecodeString`, behind its marker.
unfoldable pub decode_string : Bytes → Decoded AmfProperty
unfolding copied
decode_string s = elim (read_int16 s) [
  | none ↦ overread
  | some str_len ↦ copied str_len (strncpy str_len (drop 2 s))
]

-- The list of a property pair more.
unfoldable pub push_front : Bytes → AmfProperty → Decoded Pairs → Decoded Pairs
push_front name v (decoded ps n) = decoded (pair name v ps) n
push_front name v fail = fail
push_front name v overread = overread
push_front name v overflow = overflow
push_front name v stuck = stuck

-- The loop of `AmfObjectArray::Decode`, with `used` for `pt_in - data`; `rec` decodes a value and
-- `again` is the next round.
module _ (rec : Bytes → ℕ → Decoded AmfProperty) (again : Bytes → ℕ → Decoded Pairs) where
  -- The value behind a name, and the check of its size.
  unfoldable pub after_value : Bytes → Bytes → ℕ → Decoded AmfProperty → Decoded Pairs
  after_value name s used fail = fail
  after_value name s used overread = overread
  after_value name s used overflow = overflow
  after_value name s used stuck = stuck
  after_value name s used (decoded v zero) = fail
  after_value name s used (decoded v (suc len)) =
      push_front name v (again (drop (suc len) s) (used + suc len))

  -- A name of `len` bytes: `_name` has 128, one of them for the 0 at the end.
  unfoldable pub pair_turn : ℕ → Bytes → ℕ → ℕ → Decoded Pairs
  unfolding after_value
  pair_turn zero s used data_length = again s used
  pair_turn (suc n) s used data_length =
      if leb 128 (suc n) then overflow else elim (strncpy (suc n) s) [
        | none ↦ overread
        | some name ↦
            after_value name (drop (suc n) s) (used + suc n)
              (rec (drop (suc n) s) (data_length - (used + suc n)))
      ]

  unfoldable pub object_turn : Bytes → ℕ → ℕ → Decoded Pairs
  unfolding pair_turn
  object_turn [] used data_length = overread
  object_turn (b ∷ s) used data_length =
      if b == 9 then decoded Pairs.nil (used + 1) else elim (read_int16 (b ∷ s)) [
        | none ↦ overread
        | some len ↦ pair_turn len (drop 2 (b ∷ s)) (used + 2) data_length
      ]

unfoldable pub object_loop : (Bytes → ℕ → Decoded AmfProperty) → ℕ → Bytes → ℕ → ℕ → Decoded Pairs
unfolding object_turn
object_loop rec zero s used data_length = stuck
object_loop rec (suc fuel) s used data_length =
    object_turn rec (λ s' used'. object_loop rec fuel s' used' data_length) s used data_length

-- `AmfObjectArray::Decode` on a list that is still empty: the count of an array is passed over.
unfoldable pub decode_object_array :
    (Bytes → ℕ → Decoded AmfProperty) → ℕ → Bool → Bytes → ℕ → Decoded Pairs
unfolding object_loop start_marker
decode_object_array rec fuel is_array [] data_length = overread
decode_object_array rec fuel is_array (b ∷ s) data_length =
    if b == start_marker is_array
    then elim is_array [
      | true ↦ object_loop rec fuel (drop 4 s) 5 data_length
      | false ↦ object_loop rec fuel s 1 data_length
    ]
    else fail

unfoldable pub to_property : (Pairs → AmfProperty) → Decoded Pairs → Decoded AmfProperty
to_property f (decoded ps n) = decoded (f ps) n
to_property f fail = fail
to_property f overread = overread
to_property f overflow = overflow
to_property f stuck = stuck

-- `AmfProperty::Decode` at a marker. Every case that returns 0 leaves the property to its caller,
-- who deletes it.
unfoldable pub decode_at :
    (Bytes → ℕ → Decoded AmfProperty) → ℕ → Option AmfTypeMarker → Bytes → ℕ → Decoded AmfProperty
unfolding decode_number decode_boolean decode_string decode_object_array to_property
decode_at rec fuel (some null) s data_length = decoded AmfProperty.null 1
decode_at rec fuel (some undefined) s data_length = decoded AmfProperty.undefined 1
decode_at rec fuel (some number) s data_length =
    if ltb data_length 9 then fail else decode_number (drop 1 s)
decode_at rec fuel (some boolean) s data_length =
    if ltb data_length 2 then fail else decode_boolean (drop 1 s)
decode_at rec fuel (some string) s data_length =
    if ltb data_length 4 then fail else decode_string (drop 1 s)
decode_at rec fuel (some ecma_array) s data_length =
    to_property AmfProperty.array (decode_object_array rec fuel true s data_length)
decode_at rec fuel (some object) s data_length =
    to_property AmfProperty.object (decode_object_array rec fuel false s data_length)
decode_at rec fuel _ s data_length = fail

unfoldable pub decode_with : (Bytes → ℕ → Decoded AmfProperty) → ℕ → Bytes → ℕ → Decoded AmfProperty
unfolding decode_at
decode_with rec fuel s zero = fail
decode_with rec fuel [] (suc n) = overread
decode_with rec fuel (b ∷ s) (suc n) = decode_at rec fuel (to_marker b) (b ∷ s) (suc n)

-- A value inside another starts behind it: fuel for the length of the memory is enough.
unfoldable pub decode_fuel : ℕ → Bytes → ℕ → Decoded AmfProperty
unfolding decode_with
decode_fuel zero s data_length = stuck
decode_fuel (suc fuel) s data_length = decode_with (decode_fuel fuel) fuel s data_length

-- `AmfProperty::Decode`
unfoldable pub decode : Bytes → ℕ → Decoded AmfProperty
decode s data_length = decode_fuel (2 + length s) s data_length
