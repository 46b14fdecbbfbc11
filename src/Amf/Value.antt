-- ===== src/Amf/Value.antt =====
-- The data of amf_document.h. A property holds what its `_amf_data_type` says: `_string`, `_array`
-- and `_object` are null only under other types. A C string is its bytes, none of them 0, and a
-- double is its 64 bits.
use media_engine.Base.{ℕ, Bool}
use media_engine.Base.Bytes.{Bytes}

pub data AmfDataType : Type 0 where
  null undefined number boolean string array object : AmfDataType

mutual
  pub data AmfProperty : Type 0 where
    null : AmfProperty
    undefined : AmfProperty
    number : ℕ → AmfProperty
    boolean : Bool → AmfProperty
    string : Bytes → AmfProperty
    array : Pairs → AmfProperty
    object : Pairs → AmfProperty

  -- `_amf_property_pairs`: a name and a property each.
  pub data Pairs : Type 0 where
    nil : Pairs
    pair : Bytes → AmfProperty → Pairs → Pairs

-- `GetType`
unfoldable pub get_type : AmfProperty → AmfDataType
get_type null = AmfDataType.null
get_type undefined = AmfDataType.undefined
get_type (number n) = AmfDataType.number
get_type (boolean b) = AmfDataType.boolean
get_type (string s) = AmfDataType.string
get_type (array ps) = AmfDataType.array
get_type (object ps) = AmfDataType.object

-- `AmfTypeMarker`
pub data AmfTypeMarker : Type 0 where
  number boolean string object movie_clip null undefined reference ecma_array object_end
        strict_array date long_string unsupported recordset xml typed_object :
      AmfTypeMarker
