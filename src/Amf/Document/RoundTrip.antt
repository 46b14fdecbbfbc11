-- ===== src/Amf/Document/RoundTrip.antt =====
-- What `AmfDocument::Decode` makes of the bytes that `AmfDocument::Encode` has written.
use media_engine.Base.{
  ℕ, zero, suc, refl, ap, [], append_assoc, arith, lt→ltb, le→ltb, length, length-append,
  drop-append, ◌+◌, ◌-◌, ◌≤◌, ◌<◌, ◌≡◌, ◌∙◌, ◌∷◌, ◌++◌,
}
use media_engine.Base.Bytes.{Bytes}
use media_engine.Amf.Value.{AmfProperty}
use media_engine.Amf.Encode.{encode}
use media_engine.Amf.Decode.{Decoded, decoded, decode}
use media_engine.Amf.Document.{
  Properties, encode_document, push_property, document_turn, document_loop, decode_document,
}
use media_engine.Amf.RoundTrip.{IsEncodable, needed, decode-encode, encode-nonempty}

-- Every property can be encoded, and a string at the end is not empty: with less than four bytes
-- left it would not be read.
abbrev pub IsDocument : Properties → Type 0
IsDocument [] = Unit
IsDocument (v ∷ vs) =
    IsEncodable v × (needed v ≤ length (encode v) + length (encode_document vs)) × IsDocument vs

document_turn-decoded :
    (again : Bytes → ℕ → Decoded Properties) (e s : Bytes) (total : ℕ) (v : AmfProperty)
    → 1 ≤ length e
    → document_turn again (e ++ s) total (decoded v (length e))
      ≡ push_property v (again s (total + length e))
unfolding document_turn
document_turn-decoded again [] s total v h = elim h [ ]
document_turn-decoded again (b ∷ e) s total v h = rw (drop-append e s)

push_property-decoded :
    (v : AmfProperty) (vs : Properties) {m m' : ℕ}
    → m ≡ m'
    → push_property v (decoded vs m) ≡ decoded (v ∷ vs) m'
unfolding push_property
push_property-decoded v vs e = ap (decoded (v ∷ vs)) e

document_loop-encode :
    (fuel : ℕ) (vs : Properties) (rest : Bytes) (total data_length : ℕ)
    → IsDocument vs
    → length (encode_document vs) < fuel
    → total + length (encode_document vs) ≡ data_length
    → document_loop fuel (encode_document vs ++ rest) total data_length ≡ decoded vs data_length
unfolding document_loop encode_document
document_loop-encode zero vs rest total n h hf hn = ground arith
document_loop-encode (suc fuel) [] rest total n h hf hn =
    rw (le→ltb total n (omega arith)) (ap (decoded []) (omega arith))
document_loop-encode (suc fuel) (v ∷ vs) rest total n h hf hn =
    let nonempty = encode-nonempty v h.0 in
    let size = length-append (encode v) (encode_document vs) in
    let t = encode_document vs ++ rest in
    rw (lt→ltb total n (omega (arith, size))) (
      ap
        (λ s.
          document_turn (λ s' total'. document_loop fuel s' total' n) s total
            (decode s (n - total)))
        (append_assoc (encode v) (encode_document vs) rest)
      ∙ ap (document_turn (λ s' total'. document_loop fuel s' total' n) (encode v ++ t) total)
          (decode-encode v t (n - total) h.0 (omega (arith, size, h.1)))
      ∙ document_turn-decoded (λ s' total'. document_loop fuel s' total' n) (encode v) t total v
          nonempty
      ∙ ap (push_property v) (
          document_loop-encode fuel vs rest (total + length (encode v)) n h.2 (omega (arith, size))
            (omega (arith, size)))
      ∙ push_property-decoded v vs refl)

-- A document whose properties the wire format can hold, and whose last one is not an empty string,
-- encoded into the front of any buffer and decoded with the number of its bytes as `data_length`,
-- is the same document, and all those bytes are taken.
pub decode_document-encode_document :
    (vs : Properties) (rest : Bytes)
    → IsDocument vs
    → decode_document (encode_document vs ++ rest) (length (encode_document vs))
      ≡ decoded vs (length (encode_document vs))
unfolding decode_document
decode_document-encode_document vs rest h =
    document_loop-encode (suc (length (encode_document vs))) vs rest 0 (length (encode_document vs))
      h (omega arith) (omega arith)
