-- ===== src/Amf/Document/Termination.antt =====
-- The fuel of `decode_document` is enough.
use media_engine.Base.{
  ℕ, zero, suc, refl, Bool, true, false, arith, ltb, ltb→lt, drop, ◌+◌, ◌-◌, ◌<◌, ◌≡◌,
  if◌then◌else◌,
}
use media_engine.Base.Bytes.{Bytes}
use media_engine.Amf.Value.{AmfProperty}
use media_engine.Amf.Decode.{Decoded, fail, overread, overflow, stuck, decoded, decode}
use media_engine.Amf.Fuel.{Ends, decode-Ends}
use media_engine.Amf.Document.{
  Properties, push_property, document_turn, document_loop, decode_document,
}

push_property-Ends : (v : AmfProperty) (d : Decoded Properties) → Ends d → Ends (push_property v d)
unfolding push_property
push_property-Ends v (decoded vs n) h = tt
push_property-Ends v fail h = tt
push_property-Ends v overread h = tt
push_property-Ends v overflow h = tt
push_property-Ends v stuck h = h

document_turn-Ends :
    (again : Bytes → ℕ → Decoded Properties) (s : Bytes) (total : ℕ) (d : Decoded AmfProperty)
    → Ends d
    → ((s' : Bytes) (total' : ℕ) → total < total' → Ends (again s' total'))
    → Ends (document_turn again s total d)
unfolding document_turn
document_turn-Ends again s total fail h k = tt
document_turn-Ends again s total overread h k = tt
document_turn-Ends again s total overflow h k = tt
document_turn-Ends again s total stuck h k = h
document_turn-Ends again s total (decoded v zero) h k = tt
document_turn-Ends again s total (decoded v (suc n)) h k =
    push_property-Ends v (again (drop (suc n) s) (total + suc n))
      (k (drop (suc n) s) (total + suc n) (omega arith))

when :
    {A : Type 0} (b : Bool) (d e : Decoded A)
    → ((b ≡ true) → Ends d)
    → Ends e
    → Ends (if b then d else e)
when true d e h k = h refl
when false d e h k = k

document_loop-Ends :
    (fuel : ℕ) (s : Bytes) (total data_length : ℕ)
    → data_length - total < fuel
    → Ends (document_loop fuel s total data_length)
unfolding document_loop
document_loop-Ends zero s total data_length h = elim h [ ]
document_loop-Ends (suc fuel) s total data_length h =
    when (ltb total data_length) _ _
      (λ e.
        document_turn-Ends (λ s' total'. document_loop fuel s' total' data_length) s total
          (decode s (data_length - total)) (decode-Ends s (data_length - total))
          (λ s' total' le.
            document_loop-Ends fuel s' total' data_length
              (omega (arith, ltb→lt total data_length e))))
      tt

-- `AmfDocument::Decode` comes to an end on every memory and at every `data_length`.
pub decode_document-Ends : (s : Bytes) (data_length : ℕ) → Ends (decode_document s data_length)
unfolding decode_document
decode_document-Ends s data_length =
    document_loop-Ends (suc data_length) s 0 data_length (omega arith)
