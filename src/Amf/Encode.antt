-- ===== src/Amf/Encode.antt =====
-- `Encode` of amf_document.cpp. The bytes that a call writes at its pointer, in order; the count
-- that it returns is their number. The caller's buffer is taken to be large enough, as in the
-- source, which is not told its size.
use media_engine.Base.{ℕ, Bool, true, false, [], length, ◌/◌, ◌%◌, ◌∷◌, ◌++◌, if◌then◌else◌}
use media_engine.Base.Bytes.{Bytes}
use media_engine.Amf.Value.{
  AmfProperty, null, undefined, number, boolean, string, array, object, Pairs, nil, pair,
}

-- `AmfUtil::WriteInt8` to `WriteInt32`.
unfoldable pub write_int8 : ℕ → Bytes
write_int8 v = (v % 256) ∷ []

unfoldable pub write_int16 : ℕ → Bytes
write_int16 v = (v / 256 % 256) ∷ (v % 256) ∷ []

unfoldable pub write_int24 : ℕ → Bytes
write_int24 v = (v / 65536 % 256) ∷ (v / 256 % 256) ∷ (v % 256) ∷ []

unfoldable pub write_int32 : ℕ → Bytes
write_int32 v = (v / 16777216 % 256) ∷ (v / 65536 % 256) ∷ (v / 256 % 256) ∷ (v % 256) ∷ []

-- `AmfUtil::EncodeNumber`: the marker, then the bits of the double, big end first.
unfoldable pub encode_number : ℕ → Bytes
unfolding write_int32 write_int8
encode_number v = write_int8 0 ++ (write_int32 (v / 4294967296) ++ write_int32 (v % 4294967296))

unfoldable pub encode_boolean : Bool → Bytes
unfolding write_int8
encode_boolean b = write_int8 1 ++ ((if b then 1 else 0) ∷ [])

-- `AmfUtil::EncodeString`: the length wraps at 16 bits, the text does not.
unfoldable pub encode_string : Bytes → Bytes
unfolding write_int16 write_int8
encode_string s = write_int8 2 ++ (write_int16 (length s) ++ s)

-- `start_marker`, of an array or of an object.
unfoldable pub start_marker : Bool → ℕ
start_marker true = 8
start_marker false = 3

-- The start of an `AmfObjectArray`: an array has a count of 0 behind its marker.
unfoldable pub start : Bool → Bytes
unfolding write_int32 write_int8 start_marker
start true = write_int8 (start_marker true) ++ write_int32 0
start false = write_int8 (start_marker false)

unfoldable mutual
  unfolding encode_number encode_boolean encode_string write_int8 write_int16 start

  -- `AmfProperty::Encode`
  pub encode : AmfProperty → Bytes
  encode null = write_int8 5
  encode undefined = write_int8 6
  encode (number n) = encode_number n
  encode (boolean b) = encode_boolean b
  encode (string s) = encode_string s
  encode (array ps) = encode_object_array true ps
  encode (object ps) = encode_object_array false ps

  -- `AmfObjectArray::Encode`: nothing at all is written for an empty list.
  pub encode_object_array : Bool → Pairs → Bytes
  encode_object_array is_array nil = []
  encode_object_array is_array (pair name v ps) =
      start is_array
      ++ ((write_int16 (length name) ++ (name ++ (encode v ++ encode_pairs ps)))
          ++ (write_int16 0 ++ write_int8 9))

  -- The loop over the pairs.
  pub encode_pairs : Pairs → Bytes
  encode_pairs nil = []
  encode_pairs (pair name v ps) =
      write_int16 (length name) ++ (name ++ (encode v ++ encode_pairs ps))
