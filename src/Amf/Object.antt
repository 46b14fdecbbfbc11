-- ===== src/Amf/Object.antt =====
-- The accessors of `AmfObjectArray` in amf_document.cpp, on its list of pairs, and
-- `AmfDocument::GetPropertyIndex`. An index is an `int`: none stands for every negative one.
use media_engine.Base.{
  ℕ, zero, suc, Bool, true, false, Option, none, some, [], leb, length, ◌&&◌, ◌∷◌, ◌==◌,
  if◌then◌else◌,
}
use media_engine.Base.Bytes.{Bytes}
use media_engine.Amf.Value.{
  AmfDataType, AmfProperty, null, number, boolean, string, array, object, get_type, Pairs, nil,
  pair,
}
use media_engine.Amf.Document.{
  Properties, string_property, array_property, object_property, type_property,
}

-- Whether `strcmp` finds no difference.
unfoldable pub same_text : Bytes → Bytes → Bool
same_text [] [] = true
same_text [] (c ∷ t) = false
same_text (b ∷ s) [] = false
same_text (b ∷ s) (c ∷ t) = (b == c) && same_text s t

unfoldable pub push_pair : Pairs → Bytes → AmfProperty → Pairs
push_pair nil name v = pair name v nil
push_pair (pair m w ps) name v = pair m w (push_pair ps name v)

-- What `AddProperty` comes to: a `strcpy` behind the end of `_name`, false, or the list with a
-- pair more.
pub data Added : Type 0 where
  overflow refused : Added
  added : Pairs → Added

-- `AddProperty`: `_name` has 128 bytes, the last one for the 0.
unfoldable pub add_property : Bytes → AmfProperty → Pairs → Added
unfolding push_pair
add_property name v ps = if leb 128 (length name) then overflow else added (push_pair ps name v)

-- `AddProperty` for each type of its second argument, and `AddNullProperty`.
unfoldable pub add_type_property : Bytes → AmfDataType → Pairs → Added
unfolding add_property type_property
add_type_property name t ps = elim (type_property t) [
  | none ↦ refused
  | some v ↦ add_property name v ps
]

unfoldable pub add_number_property : Bytes → ℕ → Pairs → Added
unfolding add_property
add_number_property name n ps = add_property name (number n) ps

unfoldable pub add_boolean_property : Bytes → Bool → Pairs → Added
unfolding add_property
add_boolean_property name b ps = add_property name (boolean b) ps

unfoldable pub add_string_property : Bytes → Option Bytes → Pairs → Added
unfolding add_property string_property
add_string_property name s ps = add_property name (string_property s) ps

unfoldable pub add_array_property : Bytes → Option Pairs → Pairs → Added
unfolding add_property array_property
add_array_property name a ps = add_property name (array_property a) ps

unfoldable pub add_object_property : Bytes → Option Pairs → Pairs → Added
unfolding add_property object_property
add_object_property name o ps = add_property name (object_property o) ps

unfoldable pub add_null_property : Bytes → Pairs → Added
unfolding add_property
add_null_property name ps = add_property name null ps

-- `_GetPair`
unfoldable pub pair_at : Pairs → ℕ → Option (Bytes × AmfProperty)
pair_at nil i = none
pair_at (pair name v ps) zero = some (name, v)
pair_at (pair name v ps) (suc i) = pair_at ps i

unfoldable pub get_pair : Option ℕ → Pairs → Option (Bytes × AmfProperty)
unfolding pair_at
get_pair none ps = none
get_pair (some i) ps = pair_at ps i

-- `FindName`, with none for -1: the first pair of the name.
unfoldable pub find_from : ℕ → Bytes → Pairs → Option ℕ
unfolding same_text
find_from i name nil = none
find_from i name (pair m v ps) =
    let rest = find_from (suc i) name ps in if same_text m name then some i else rest

unfoldable pub find_name : Bytes → Pairs → Option ℕ
unfolding find_from
find_name name ps = find_from 0 name ps

-- `AmfProperty::GetNumber` to `GetAmfObject`: what `_Initialize` left under other types.
unfoldable pub property_number : AmfProperty → ℕ
property_number (number n) = n
property_number _ = 0

unfoldable pub property_boolean : AmfProperty → Bool
property_boolean (boolean b) = b
property_boolean _ = true

unfoldable pub property_string : AmfProperty → Option Bytes
property_string (string s) = some s
property_string _ = none

unfoldable pub property_array : AmfProperty → Option Pairs
property_array (array ps) = some ps
property_array _ = none

unfoldable pub property_object : AmfProperty → Option Pairs
property_object (object ps) = some ps
property_object _ = none

-- `GetName` to `GetObject` at an index.
unfoldable pub get_name : Option ℕ → Pairs → Option Bytes
unfolding get_pair
get_name i ps = elim (get_pair i ps) [ none ↦ none | some p ↦ some p.0 ]

unfoldable pub get_type_at : Option ℕ → Pairs → AmfDataType
unfolding get_pair get_type
get_type_at i ps = elim (get_pair i ps) [ none ↦ AmfDataType.null | some p ↦ get_type p.1 ]

unfoldable pub get_number : Option ℕ → Pairs → ℕ
unfolding get_pair property_number
get_number i ps = elim (get_pair i ps) [ none ↦ 0 | some p ↦ property_number p.1 ]

unfoldable pub get_boolean : Option ℕ → Pairs → Bool
unfolding get_pair property_boolean
get_boolean i ps = elim (get_pair i ps) [ none ↦ false | some p ↦ property_boolean p.1 ]

unfoldable pub get_string : Option ℕ → Pairs → Option Bytes
unfolding get_pair property_string
get_string i ps = elim (get_pair i ps) [ none ↦ none | some p ↦ property_string p.1 ]

unfoldable pub get_array : Option ℕ → Pairs → Option Pairs
unfolding get_pair property_array
get_array i ps = elim (get_pair i ps) [ none ↦ none | some p ↦ property_array p.1 ]

unfoldable pub get_object : Option ℕ → Pairs → Option Pairs
unfolding get_pair property_object
get_object i ps = elim (get_pair i ps) [ none ↦ none | some p ↦ property_object p.1 ]

-- `AmfDocument::GetPropertyIndex`, with none for -1: the first string property with that text.
unfoldable pub is_string : Bytes → AmfProperty → Bool
unfolding same_text
is_string name (string s) = same_text s name
is_string name _ = false

unfoldable pub index_from : ℕ → Bytes → Properties → Option ℕ
unfolding is_string
index_from i name [] = none
index_from i name (v ∷ vs) =
    let rest = index_from (suc i) name vs in if is_string name v then some i else rest

unfoldable pub get_property_index : Bytes → Properties → Option ℕ
unfolding index_from
get_property_index name vs = index_from 0 name vs
