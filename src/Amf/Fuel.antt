-- ===== src/Amf/Fuel.antt =====
-- The fuel of `decode` is enough: no input makes it run out.
use media_engine.Base.{
  ℕ, zero, suc, min, inl, inr, Bool, true, false, Option, none, some, [], arith, ltb, leb,
  Bool-cases, Option-cases, length, drop, length-drop, ◌+◌, ◌-◌, ◌*◌, ◌<◌, ◌∷◌, ◌==◌, if◌then◌else◌,
}
use media_engine.Base.Bytes.{Bytes}
use media_engine.Amf.Value.{
  AmfProperty, AmfTypeMarker, Pairs, number, boolean, string, object, null, undefined, ecma_array,
}
use media_engine.Amf.Decode.{
  Decoded, decoded, fail, overread, overflow, stuck, strncpy, read_int16, read_int32, push_front,
  after_value, pair_turn, object_turn, object_loop, decode_object_array, to_property, decode_at,
  decode_with, decode_fuel, decode, to_marker, copied, decode_string, decode_number, decode_boolean,
}
use media_engine.Amf.Encode.{start_marker}

-- A call that ended, in whatever way.
abbrev pub Ends {ℓ} : {A : Type ℓ} → Decoded A → Type 0
Ends stuck = ⊥
Ends _ = Unit

-- A decoder of values that ends on fewer than `k` bytes.
abbrev EndsBelow : (Bytes → ℕ → Decoded AmfProperty) → ℕ → Type 0
EndsBelow rec k = (s : Bytes) (n : ℕ) → length s < k → Ends (rec s n)

push_front-Ends :
    (name : Bytes) (v : AmfProperty) (d : Decoded Pairs) → Ends d → Ends (push_front name v d)
unfolding push_front
push_front-Ends name v fail h = tt
push_front-Ends name v overread h = tt
push_front-Ends name v overflow h = tt
push_front-Ends name v stuck h = h
push_front-Ends name v (decoded ps n) h = tt

module _ (rec : Bytes → ℕ → Decoded AmfProperty) (again : Bytes → ℕ → Decoded Pairs) (m k : ℕ)
    (rec-Ends : EndsBelow rec k)
    (again-Ends : (s : Bytes) (used : ℕ) → length s < m → Ends (again s used)) where
  after_value-Ends :
      (name s : Bytes) (used : ℕ) (d : Decoded AmfProperty)
      → length s < m
      → Ends d
      → Ends (after_value rec again name s used d)
  unfolding after_value
  after_value-Ends name s used fail hm h = tt
  after_value-Ends name s used overread hm h = tt
  after_value-Ends name s used overflow hm h = tt
  after_value-Ends name s used stuck hm h = h
  after_value-Ends name s used (decoded v zero) hm h = tt
  after_value-Ends name s used (decoded v (suc n)) hm h =
      push_front-Ends name v (again (drop (suc n) s) (used + suc n))
        (again-Ends (drop (suc n) s) (used + suc n) (omega (arith, length-drop (suc n) s)))

  pair_turn-Ends :
      (len : ℕ) (s : Bytes) (used n : ℕ)
      → length s < m
      → length s < k
      → Ends (pair_turn rec again len s used n)
  unfolding pair_turn
  pair_turn-Ends zero s used n hm hk = again-Ends s used hm
  pair_turn-Ends (suc len) s used n hm hk = elim (Bool-cases (leb 128 (suc len))) [
    | inl long ↦ rw long tt
    | inr short ↦ elim (Option-cases (strncpy (suc len) s)) [
      | inl behind ↦ rw (short, behind) tt
      | inr (name, e) ↦
          rw (short, e)
            (after_value-Ends name (drop (suc len) s) (used + suc len)
              (rec (drop (suc len) s) (n - (used + suc len)))
              (omega (arith, length-drop (suc len) s))
              (rec-Ends (drop (suc len) s) (n - (used + suc len))
                (omega (arith, length-drop (suc len) s))))
    ]
  ]

  object_turn-Ends :
      (s : Bytes) (used n : ℕ)
      → length s < suc m
      → length s < suc k
      → Ends (object_turn rec again s used n)
  unfolding object_turn read_int16
  object_turn-Ends [] used n hm hk = tt
  object_turn-Ends (b ∷ []) used n hm hk = elim (Bool-cases (b == 9)) [
    | inl last ↦ rw last tt
    | inr more ↦ rw more tt
  ]
  object_turn-Ends (b ∷ c ∷ s) used n hm hk = elim (Bool-cases (b == 9)) [
    | inl last ↦ rw last tt
    | inr more ↦ rw more (pair_turn-Ends (b * 256 + c) s (used + 2) n (omega arith) (omega arith))
  ]

object_loop-Ends :
    (rec : Bytes → ℕ → Decoded AmfProperty) (k : ℕ)
    → EndsBelow rec k
    → (fuel : ℕ) (s : Bytes) (used n : ℕ) → length s < fuel
    → length s < suc k
    → Ends (object_loop rec fuel s used n)
unfolding object_loop
object_loop-Ends rec k ih zero s used n hf hk = elim hf [ ]
object_loop-Ends rec k ih (suc fuel) s used n hf hk =
    object_turn-Ends rec (λ s' used'. object_loop rec fuel s' used' n) (min fuel k) k ih
      (λ s' used' h. object_loop-Ends rec k ih fuel s' used' n (omega arith) (omega arith)) s used n
      (omega arith) hk

decode_object_array-Ends :
    (rec : Bytes → ℕ → Decoded AmfProperty) (k : ℕ)
    → EndsBelow rec k
    → (is_array : Bool) (s : Bytes) (n : ℕ) → length s < suc k
    → Ends (decode_object_array rec k is_array s n)
unfolding decode_object_array
decode_object_array-Ends rec k ih b [] n h = tt
decode_object_array-Ends rec k ih true (c ∷ s) n h = elim (Bool-cases (c == start_marker true)) [
  | inl same ↦ rw same (
      object_loop-Ends rec k ih k (drop 4 s) 5 n (omega (arith, length-drop 4 s))
        (omega (arith, length-drop 4 s)))
  | inr other ↦ rw other tt
]
decode_object_array-Ends rec k ih false (c ∷ s) n h = elim (Bool-cases (c == start_marker false)) [
  | inl same ↦ rw same (object_loop-Ends rec k ih k s 1 n (omega arith) (omega arith))
  | inr other ↦ rw other tt
]

to_property-Ends : (f : Pairs → AmfProperty) (d : Decoded Pairs) → Ends d → Ends (to_property f d)
unfolding to_property
to_property-Ends f fail h = tt
to_property-Ends f overread h = tt
to_property-Ends f overflow h = tt
to_property-Ends f stuck h = h
to_property-Ends f (decoded ps n) h = tt

decode_number-Ends : (s : Bytes) → Ends (decode_number s)
unfolding decode_number
decode_number-Ends s = elim (Option-cases (read_int32 s)) [
  | inl e ↦ rw (Ends, e) tt
  | inr (high, e) ↦ elim (Option-cases (read_int32 (drop 4 s))) [
    | inl f ↦ rw (Ends, e, f) tt
    | inr (low, f) ↦ rw (Ends, e, f) tt
  ]
]

decode_boolean-Ends : (s : Bytes) → Ends (decode_boolean s)
unfolding decode_boolean
decode_boolean-Ends [] = tt
decode_boolean-Ends (b ∷ s) = tt

copied-Ends : (n : ℕ) (t : Option Bytes) → Ends (copied n t)
unfolding copied
copied-Ends n none = tt
copied-Ends n (some t) = tt

decode_string-Ends : (s : Bytes) → Ends (decode_string s)
unfolding decode_string
decode_string-Ends s = elim (Option-cases (read_int16 s)) [
  | inl e ↦ rw (Ends, e) tt
  | inr (n, e) ↦ rw (Ends, e) (copied-Ends n (strncpy n (drop 2 s)))
]

unless-Ends : (b : Bool) (d : Decoded AmfProperty) → Ends d → Ends (if b then fail else d)
unless-Ends true d h = tt
unless-Ends false d h = h

decode_at-Ends :
    (rec : Bytes → ℕ → Decoded AmfProperty) (k : ℕ)
    → EndsBelow rec k
    → (m : Option AmfTypeMarker) (s : Bytes) (n : ℕ) → length s < suc k
    → Ends (decode_at rec k m s n)
unfolding decode_at
decode_at-Ends rec k ih (some null) s n h = tt
decode_at-Ends rec k ih (some undefined) s n h = tt
decode_at-Ends rec k ih (some number) s n h =
    unless-Ends (ltb n 9) (decode_number (drop 1 s)) (decode_number-Ends (drop 1 s))
decode_at-Ends rec k ih (some boolean) s n h =
    unless-Ends (ltb n 2) (decode_boolean (drop 1 s)) (decode_boolean-Ends (drop 1 s))
decode_at-Ends rec k ih (some string) s n h =
    unless-Ends (ltb n 4) (decode_string (drop 1 s)) (decode_string-Ends (drop 1 s))
decode_at-Ends rec k ih (some ecma_array) s n h =
    to_property-Ends AmfProperty.array (decode_object_array rec k true s n)
      (decode_object_array-Ends rec k ih true s n h)
decode_at-Ends rec k ih (some object) s n h =
    to_property-Ends AmfProperty.object (decode_object_array rec k false s n)
      (decode_object_array-Ends rec k ih false s n h)
decode_at-Ends rec k ih _ s n h = tt

decode_fuel-Ends : (k : ℕ) → EndsBelow (decode_fuel k) k
unfolding decode_fuel decode_with
decode_fuel-Ends zero s n h = elim h [ ]
decode_fuel-Ends (suc k) s zero h = tt
decode_fuel-Ends (suc k) [] (suc n) h = tt
decode_fuel-Ends (suc k) (b ∷ s) (suc n) h =
    decode_at-Ends (decode_fuel k) k (decode_fuel-Ends k) (to_marker b) (b ∷ s) (suc n) h

-- On every memory and at every `data_length`, `Decode` comes to an end: its loops do not go on for
-- ever and the fuel of the model is enough.
pub decode-Ends : (s : Bytes) (data_length : ℕ) → Ends (decode s data_length)
unfolding decode
decode-Ends s n = decode_fuel-Ends (2 + length s) s n (omega arith)
