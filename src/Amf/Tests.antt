-- ===== src/Amf/Tests.antt =====
-- The theorems on AMF0 values at concrete values.
use media_engine.Base.{refl, true, some, [], arith, length, ◌≡◌, ◌∷◌, ◌++◌}
use media_engine.Amf.Value.{AmfProperty, Pairs, nil, pair, null, number, boolean, string, object}
use media_engine.Amf.Encode.{encode}
use media_engine.Amf.Decode.{decode, decoded}
use media_engine.Amf.RoundTrip.{IsEncodable, decode-encode}
use media_engine.Amf.Fuel.{Ends, decode-Ends}
use media_engine.Amf.Document.Termination.{decode_document-Ends}
use media_engine.Amf.Document.{Properties, encode_document, decode_document}
use media_engine.Amf.Document.RoundTrip.{IsDocument, decode_document-encode_document}
use media_engine.Amf.Object.{added, add_property, find_name, get_pair}
use media_engine.Amf.Lookup.{count, find_name-add_property}

-- `{ app: "live", n: 1 }` with short names.
abbrev command : AmfProperty
command = object (pair (97 ∷ []) (string (108 ∷ 105 ∷ [])) (pair (110 ∷ []) (number 1) nil))

abbrev call : Properties
call = string (99 ∷ []) ∷ number 7 ∷ command ∷ null ∷ []

command_fits : IsEncodable command
unfolding encode
command_fits = ground arith

call_fits : IsDocument call
unfolding encode encode_document
call_fits = ground arith

decode-encode_example :
    decode (encode command ++ (1 ∷ [])) 24 ≡ decoded command (length (encode command))
unfolding encode
decode-encode_example = decode-encode command (1 ∷ []) 24 command_fits (omega arith)

decode-Ends_example : Ends (decode (3 ∷ 0 ∷ 0 ∷ 0 ∷ 0 ∷ []) 5)
decode-Ends_example = decode-Ends (3 ∷ 0 ∷ 0 ∷ 0 ∷ 0 ∷ []) 5

decode_document-encode_document_example :
    decode_document (encode_document call ++ (1 ∷ [])) (length (encode_document call))
    ≡ decoded call (length (encode_document call))
decode_document-encode_document_example = decode_document-encode_document call (1 ∷ []) call_fits

abbrev one_pair : Pairs
one_pair = pair (97 ∷ []) (number 1) nil

find_name-add_property_example :
    (ps' : Pairs) × (add_property (98 ∷ []) (boolean true) one_pair ≡ added ps')
    × (find_name (98 ∷ []) ps' ≡ some (count one_pair))
    × (get_pair (find_name (98 ∷ []) ps') ps' ≡ some (98 ∷ [], boolean true))
unfolding find_name
find_name-add_property_example =
    find_name-add_property (98 ∷ []) (boolean true) one_pair (omega arith) refl

decode_document-Ends_example : Ends (decode_document (2 ∷ 0 ∷ 1 ∷ 65 ∷ 5 ∷ []) 5)
decode_document-Ends_example = decode_document-Ends (2 ∷ 0 ∷ 1 ∷ 65 ∷ 5 ∷ []) 5
