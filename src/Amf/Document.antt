-- ===== src/Amf/Document.antt =====
-- `AmfDocument` of amf_document.cpp: a list of properties.
pub mod RoundTrip
pub mod Termination
use media_engine.Base.{
  ℕ, zero, suc, Bool, true, false, Option, none, some, List, [], ltb, length, get_elem?, drop, ◌+◌,
  ◌-◌, ◌∷◌, ◌++◌, if◌then◌else◌,
}
use media_engine.Base.Bytes.{Bytes}
use media_engine.Amf.Value.{
  AmfDataType, AmfProperty, Pairs, null, undefined, number, boolean, string, array, object,
}
use media_engine.Amf.Encode.{encode}
use media_engine.Amf.Decode.{Decoded, fail, overread, overflow, stuck, decoded, decode}

abbrev pub Properties : Type 0
Properties = List AmfProperty

-- `AmfDocument::Encode`
unfoldable pub encode_document : Properties → Bytes
encode_document [] = []
encode_document (v ∷ vs) = encode v ++ encode_document vs

-- The rest of a decoded document behind its first property.
unfoldable pub push_property : AmfProperty → Decoded Properties → Decoded Properties
push_property v (decoded vs n) = decoded (v ∷ vs) n
push_property v fail = fail
push_property v overread = overread
push_property v overflow = overflow
push_property v stuck = stuck

-- What a round makes of its property: a size of 0 ends the loop.
unfoldable pub document_turn :
    (Bytes → ℕ → Decoded Properties) → Bytes → ℕ → Decoded AmfProperty → Decoded Properties
unfolding push_property
document_turn again s total fail = decoded [] total
document_turn again s total overread = overread
document_turn again s total overflow = overflow
document_turn again s total stuck = stuck
document_turn again s total (decoded v zero) = decoded [] total
document_turn again s total (decoded v (suc n)) =
    push_property v (again (drop (suc n) s) (total + suc n))

unfoldable pub document_loop : ℕ → Bytes → ℕ → ℕ → Decoded Properties
unfolding document_turn
document_loop zero s total data_length = stuck
document_loop (suc fuel) s total data_length =
    if ltb total data_length
    then document_turn (λ s' total'. document_loop fuel s' total' data_length) s total
        (decode s (data_length - total))
    else decoded [] total

-- `AmfDocument::Decode` on a document that is still empty: each property takes a byte at least.
unfoldable pub decode_document : Bytes → ℕ → Decoded Properties
unfolding document_loop
decode_document s data_length = document_loop (suc data_length) s 0 data_length

-- `AmfProperty(const char *)`, `AmfProperty(AmfArray *)` and `AmfProperty(AmfObject *)`: a null
-- pointer leaves the property null.
unfoldable pub string_property : Option Bytes → AmfProperty
string_property none = null
string_property (some s) = string s

unfoldable pub array_property : Option Pairs → AmfProperty
array_property none = null
array_property (some ps) = array ps

unfoldable pub object_property : Option Pairs → AmfProperty
object_property none = null
object_property (some ps) = object ps

-- The properties that `AddProperty(AmfDataType)` accepts.
unfoldable pub type_property : AmfDataType → Option AmfProperty
type_property AmfDataType.null = some null
type_property AmfDataType.undefined = some undefined
type_property _ = none

-- `AmfDocument::AddProperty`: the property's list behind, and whether it was added.
unfoldable pub push_back : AmfProperty → Properties → Properties
push_back v vs = vs ++ (v ∷ [])

unfoldable pub add_type : AmfDataType → Properties → Bool × Properties
unfolding type_property push_back
add_type t vs = elim (type_property t) [ none ↦ (false, vs) | some v ↦ (true, push_back v vs) ]

unfoldable pub add_number : ℕ → Properties → Bool × Properties
unfolding push_back
add_number n vs = (true, push_back (number n) vs)

unfoldable pub add_boolean : Bool → Properties → Bool × Properties
unfolding push_back
add_boolean b vs = (true, push_back (boolean b) vs)

unfoldable pub add_string : Option Bytes → Properties → Bool × Properties
unfolding push_back
add_string none vs = (false, vs)
add_string (some s) vs = (true, push_back (string s) vs)

unfoldable pub add_array : Option Pairs → Properties → Bool × Properties
unfolding push_back
add_array none vs = (false, vs)
add_array (some ps) vs = (true, push_back (array ps) vs)

unfoldable pub add_object : Option Pairs → Properties → Bool × Properties
unfolding push_back
add_object none vs = (false, vs)
add_object (some ps) vs = (true, push_back (object ps) vs)

-- `GetPropertyCount`
unfoldable pub get_property_count : Properties → ℕ
get_property_count vs = length vs

-- `GetProperty`, where no index is a negative one.
unfoldable pub get_property : Option ℕ → Properties → Option AmfProperty
get_property none vs = none
get_property (some i) vs = get_elem? vs i
