-- ===== src/Amf/Lookup.antt =====
-- A pair that was added is found again under its name.
use media_engine.Base.{
  ℕ, suc, refl, ap, inl, inr, true, none, some, [], arith, lt→leb, Bool-cases, length, ◌+◌, ◌<◌,
  ◌≡◌, ◌∙◌, ◌∷◌, ◌==◌,
}
use media_engine.Base.Bytes.{Bytes}
use media_engine.Amf.Value.{AmfProperty, Pairs, nil, pair}
use media_engine.Amf.Object.{
  same_text, push_pair, added, add_property, pair_at, get_pair, find_from, find_name,
}

abbrev pub count : Pairs → ℕ
count nil = 0
count (pair name v ps) = suc (count ps)

same_byte : (b : ℕ) → (b == b) ≡ true
same_byte b = ground arith

same_text_refl : (s : Bytes) → same_text s s ≡ true
unfolding same_text
same_text_refl [] = refl
same_text_refl (b ∷ s) = rw (same_byte b, same_text_refl s)

find_from-push_pair :
    (i : ℕ) (ps : Pairs) (name : Bytes) (v : AmfProperty)
    → find_from i name ps ≡ none
    → find_from i name (push_pair ps name v) ≡ some (i + count ps)
unfolding find_from push_pair
find_from-push_pair i nil name v h = rw (same_text_refl name) (ap some (omega arith))
find_from-push_pair i (pair m w ps) name v h = elim (Bool-cases (same_text m name)) [
  | inl same ↦ ground (arith, rw same at h)
  | inr other ↦
      rw other (find_from-push_pair (suc i) ps name v (rw other at h) ∙ ap some (omega arith))
]

pair_at-push_pair :
    (ps : Pairs) (name : Bytes) (v : AmfProperty)
    → pair_at (push_pair ps name v) (count ps) ≡ some (name, v)
unfolding pair_at push_pair
pair_at-push_pair nil name v = refl
pair_at-push_pair (pair m w ps) name v = pair_at-push_pair ps name v

-- A name of less than 128 bytes that no pair has yet: `AddProperty` adds the pair, `FindName` then
-- finds it behind the pairs that were there, and `_GetPair` gives the name and the property back.
pub find_name-add_property :
    (name : Bytes) (v : AmfProperty) (ps : Pairs)
    → length name < 128
    → find_name name ps ≡ none
    → (ps' : Pairs) × (add_property name v ps ≡ added ps')
      × (find_name name ps' ≡ some (count ps))
      × (get_pair (find_name name ps') ps' ≡ some (name, v))
unfolding add_property find_name get_pair
find_name-add_property name v ps short fresh =
    let found = find_from-push_pair 0 ps name v fresh ∙ ap some (omega arith) in
    (
      push_pair ps name v,
      rw (lt→leb 128 (length name) short),
      found,
      rw found (pair_at-push_pair ps name v),
    )
