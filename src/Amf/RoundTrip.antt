-- ===== src/Amf/RoundTrip.antt =====
-- What `Decode` makes of the bytes that `Encode` has written.
use media_engine.Base.{
  ℕ, zero, suc, max, refl, ap, Bool, true, false, some, [], append_assoc, arith, le→ltb, lt→leb,
  length, drop, All, length-append, drop-append, ◌+◌, ◌-◌, ◌*◌, ◌/◌, ◌%◌, ◌≤◌, ◌<◌, ◌≡◌, ◌∙◌, ◌∷◌,
  ◌++◌, ◌==◌,
}
use media_engine.Base.Bytes.{Bytes, be16_value, be32_value}
use media_engine.Amf.Value.{
  AmfProperty, Pairs, nil, pair, null, undefined, number, boolean, string, array, object,
}
use media_engine.Amf.Encode.{
  write_int8, write_int16, write_int32, encode_number, encode_boolean, encode_string, start,
  start_marker, encode, encode_pairs, encode_object_array,
}
use media_engine.Amf.Decode.{
  Decoded, decoded, strncpy, read_int16, read_int32, push_front, after_value, pair_turn,
  object_turn, object_loop, decode_object_array, to_property, decode_at, decode_with, decode_fuel,
  decode, to_marker, copied, decode_string, decode_number, decode_boolean,
}

-- A C string without its end: no byte is 0.
abbrev pub IsText : Bytes → Type 0
IsText s = All (λ b. 1 ≤ b) s

-- A name that fits `_name` and is not taken for the end.
abbrev pub IsName : Bytes → Type 0
IsName s = IsText s × (1 ≤ length s) × (length s < 128)

-- A property that the wire format can hold: a string's length has 16 bits, an array or an object
-- has a pair.
abbrev mutual
  pub IsEncodable : AmfProperty → Type 0
  IsEncodable null = Unit
  IsEncodable undefined = Unit
  IsEncodable (number n) = n < 18446744073709551616
  IsEncodable (boolean b) = Unit
  IsEncodable (string s) = IsText s × (length s < 65536)
  IsEncodable (array ps) = (1 ≤ length (encode_pairs ps)) × AreEncodable ps
  IsEncodable (object ps) = (1 ≤ length (encode_pairs ps)) × AreEncodable ps

  pub AreEncodable : Pairs → Type 0
  AreEncodable nil = Unit
  AreEncodable (pair name v ps) = IsName name × IsEncodable v × AreEncodable ps

-- The least `data_length` at which the property is read: what it takes, and for a string four
-- bytes, even if it is empty.
abbrev pub needed : AmfProperty → ℕ
needed (string s) = max 4 (length (encode (string s)))
needed v = length (encode v)

pub strncpy-append : (s rest : Bytes) → IsText s → strncpy (length s) (s ++ rest) ≡ some s
unfolding strncpy
strncpy-append [] rest h = refl
strncpy-append (zero ∷ s) rest h = elim h.0 [ ]
strncpy-append (suc b ∷ s) rest h = rw (strncpy-append s rest h.1)

abbrev Reads : (Bytes → ℕ → Decoded AmfProperty) → ℕ → Type 0
Reads rec k =
    (v : AmfProperty) (rest : Bytes) (n : ℕ)
    → IsEncodable v
    → length (encode v) ≤ k
    → needed v ≤ n
    → rec (encode v ++ rest) n ≡ decoded v (length (encode v))

pub encode-nonempty : (v : AmfProperty) → IsEncodable v → 1 ≤ length (encode v)
unfolding encode encode_number encode_boolean encode_string write_int8 start start_marker
encode-nonempty null h = omega arith
encode-nonempty undefined h = omega arith
encode-nonempty (number n) h = omega arith
encode-nonempty (boolean b) h = omega arith
encode-nonempty (string s) h = omega arith
encode-nonempty (array nil) h = h.0
encode-nonempty (array (pair x v ps)) h = omega arith
encode-nonempty (object nil) h = h.0
encode-nonempty (object (pair x v ps)) h = omega arith

nothing_left : (v : AmfProperty) → IsEncodable v → length (encode v) ≤ 0 → ⊥
nothing_left v h hk = omega (arith, encode-nonempty v h)

nothing_needed : (v : AmfProperty) → IsEncodable v → needed v ≤ 0 → ⊥
nothing_needed null h hn = nothing_left null h hn
nothing_needed undefined h hn = nothing_left undefined h hn
nothing_needed (number n) h hn = nothing_left (number n) h hn
nothing_needed (boolean b) h hn = nothing_left (boolean b) h hn
nothing_needed (string s) h hn = omega arith
nothing_needed (array ps) h hn = nothing_left (array ps) h hn
nothing_needed (object ps) h hn = nothing_left (object ps) h hn

small_16 : (l : ℕ) → l < 65536 → l % 65536 ≡ l
small_16 l h = omega arith

-- A name, as `pair_turn` reads it.
pair_turn-name :
    (rec : Bytes → ℕ → Decoded AmfProperty) (again : Bytes → ℕ → Decoded Pairs) (name rest : Bytes)
    (used n : ℕ)
    → IsName name
    → pair_turn rec again (length name) (name ++ rest) used n
      ≡ after_value rec again name rest (used + length name) (rec rest (n - (used + length name)))
unfolding pair_turn
pair_turn-name rec again [] rest used n h = elim h.1 [ ]
pair_turn-name rec again (c ∷ cs) rest used n h =
    rw (lt→leb 128 (suc (length cs)) h.2, strncpy-append (c ∷ cs) rest h.0, drop-append cs rest)

after_value-decoded :
    (rec : Bytes → ℕ → Decoded AmfProperty) (again : Bytes → ℕ → Decoded Pairs)
    (name e rest : Bytes) (v : AmfProperty) (used : ℕ)
    → 1 ≤ length e
    → after_value rec again name (e ++ rest) used (decoded v (length e))
      ≡ push_front name v (again rest (used + length e))
unfolding after_value
after_value-decoded rec again name [] rest v used h = elim h [ ]
after_value-decoded rec again name (b ∷ e) rest v used h = rw (drop-append e rest)

high_not_end : (l : ℕ) → l < 128 → (l / 256 % 256 == 9) ≡ false
high_not_end l h = ground arith

low_16 : (l : ℕ) → l < 128 → l % 65536 ≡ l
low_16 l h = omega arith

object_turn-pair :
    (rec : Bytes → ℕ → Decoded AmfProperty) (again : Bytes → ℕ → Decoded Pairs) (name rest : Bytes)
    (used n : ℕ)
    → length name < 128
    → object_turn rec again (write_int16 (length name) ++ rest) used n
      ≡ pair_turn rec again (length name) rest (used + 2) n
unfolding object_turn write_int16 read_int16
object_turn-pair rec again name rest used n h =
    rw (high_not_end (length name) h, be16_value (length name), low_16 (length name) h)

pub needed-le : (v : AmfProperty) → needed v ≤ max 4 (length (encode v))
needed-le null = omega arith
needed-le undefined = omega arith
needed-le (number n) = omega arith
needed-le (boolean b) = omega arith
needed-le (string s) = omega arith
needed-le (array ps) = omega arith
needed-le (object ps) = omega arith

length-encode_pairs :
    (name : Bytes) (v : AmfProperty) (ps : Pairs)
    → length (encode_pairs (pair name v ps))
      ≡ 2 + (length name + (length (encode v) + length (encode_pairs ps)))
unfolding encode_pairs write_int16
length-encode_pairs name v ps = omega (
  arith,
  length-append name (encode v ++ encode_pairs ps),
  length-append (encode v) (encode_pairs ps),
)

encode_pairs-append :
    (name : Bytes) (v : AmfProperty) (ps : Pairs) (t : Bytes)
    → encode_pairs (pair name v ps) ++ t
      ≡ write_int16 (length name) ++ (name ++ (encode v ++ (encode_pairs ps ++ t)))
unfolding encode_pairs write_int16
encode_pairs-append name v ps t =
    rw (
      append_assoc name (encode v ++ encode_pairs ps) t,
      append_assoc (encode v) (encode_pairs ps) t,
    )

push_front-decoded :
    (name : Bytes) (v : AmfProperty) (ps : Pairs) {m m' : ℕ}
    → m ≡ m'
    → push_front name v (decoded ps m) ≡ decoded (pair name v ps) m'
unfolding push_front
push_front-decoded name v ps e = ap (decoded (pair name v ps)) e

loop_end :
    (rec : Bytes → ℕ → Decoded AmfProperty) (fuel : ℕ) (rest : Bytes) (used n : ℕ)
    → object_loop rec (suc (suc fuel)) (encode_pairs nil ++ (0 ∷ 0 ∷ 9 ∷ rest)) used n
      ≡ decoded nil (used + (length (encode_pairs nil) + 3))
unfolding object_loop encode_pairs read_int16 object_turn pair_turn
loop_end rec fuel rest used n = ap (decoded nil) (omega arith)

module _ (rec : Bytes → ℕ → Decoded AmfProperty) (k : ℕ) (ih : Reads rec k) where
  -- The loop over the pairs takes them all, and the end.
  object_loop-encode_pairs :
      (fuel : ℕ) (ps : Pairs) (rest : Bytes) (used n : ℕ)
      → AreEncodable ps
      → length (encode_pairs ps) ≤ k
      → length (encode_pairs ps) + 2 ≤ fuel
      → used + (length (encode_pairs ps) + 3) ≤ n
      → object_loop rec fuel (encode_pairs ps ++ (0 ∷ 0 ∷ 9 ∷ rest)) used n
        ≡ decoded ps (used + (length (encode_pairs ps) + 3))
  unfolding object_loop
  object_loop-encode_pairs zero ps rest used n h hk hf hn = ground arith
  object_loop-encode_pairs (suc zero) ps rest used n h hk hf hn = ground arith
  object_loop-encode_pairs (suc (suc fuel)) nil rest used n h hk hf hn =
      loop_end rec fuel rest used n
  object_loop-encode_pairs (suc (suc fuel)) (pair name v ps) rest used n h hk hf hn =
      let t = encode_pairs ps ++ (0 ∷ 0 ∷ 9 ∷ rest) in
      let again = λ (s' : Bytes) (used' : ℕ). object_loop rec (suc fuel) s' used' n in
      let len = length-encode_pairs name v ps in
      let nonempty = encode-nonempty v h.1 in
      let at = used + 2 + length name in
      ap (λ s. object_loop rec (suc (suc fuel)) s used n)
        (encode_pairs-append name v ps (0 ∷ 0 ∷ 9 ∷ rest))
      ∙ object_turn-pair rec again name (name ++ (encode v ++ t)) used n h.0.2
      ∙ pair_turn-name rec again name (encode v ++ t) (used + 2) n h.0
      ∙ ap (after_value rec again name (encode v ++ t) at)
          (ih v t (n - at) h.1 (omega (arith, len)) (omega (arith, len, needed-le v)))
      ∙ after_value-decoded rec again name (encode v) t v at nonempty
      ∙ ap (push_front name v) (
          object_loop-encode_pairs (suc fuel) ps rest (at + length (encode v)) n h.2
            (omega (arith, len)) (omega (arith, len)) (omega (arith, len)))
      ∙ push_front-decoded name v ps (omega (arith, len))

  -- An array or an object from its start on.
  decode_object_array-encode :
      (is_array : Bool) (ps : Pairs) (rest : Bytes) (n : ℕ)
      → AreEncodable ps
      → 1 ≤ length (encode_pairs ps)
      → length (encode_object_array is_array ps) ≤ suc k
      → length (encode_object_array is_array ps) ≤ n
      → decode_object_array rec k is_array (encode_object_array is_array ps ++ rest) n
        ≡ decoded ps (length (encode_object_array is_array ps))
  unfolding decode_object_array encode_object_array start start_marker write_int8 write_int16
      write_int32
  decode_object_array-encode true nil rest n h filled hk hn = elim filled [ ]
  decode_object_array-encode true (pair name v ps) rest n h filled hk hn =
      let size = length-append (encode_pairs (pair name v ps)) (0 ∷ 0 ∷ 9 ∷ []) in
      ap (λ s. object_loop rec k s 5 n)
        (append_assoc (encode_pairs (pair name v ps)) (0 ∷ 0 ∷ 9 ∷ []) rest)
      ∙ object_loop-encode_pairs k (pair name v ps) rest 5 n h (omega (arith, size))
          (omega (arith, size)) (omega (arith, size))
      ∙ ap (decoded (pair name v ps)) (omega (arith, size))
  decode_object_array-encode false nil rest n h filled hk hn = elim filled [ ]
  decode_object_array-encode false (pair name v ps) rest n h filled hk hn =
      let size = length-append (encode_pairs (pair name v ps)) (0 ∷ 0 ∷ 9 ∷ []) in
      ap (λ s. object_loop rec k s 1 n)
        (append_assoc (encode_pairs (pair name v ps)) (0 ∷ 0 ∷ 9 ∷ []) rest)
      ∙ object_loop-encode_pairs k (pair name v ps) rest 1 n h (omega (arith, size))
          (omega (arith, size)) (omega (arith, size))
      ∙ ap (decoded (pair name v ps)) (omega (arith, size))

halves :
    (m : ℕ)
    → m < 18446744073709551616
    → m / 4294967296 % 4294967296 * 4294967296 + m % 4294967296 % 4294967296 ≡ m
halves m h = omega arith

decode_number-encode_number :
    (m : ℕ) (rest : Bytes)
    → m < 18446744073709551616
    → decode_number (drop 1 (encode_number m ++ rest)) ≡ decoded (number m) 9
unfolding decode_number encode_number write_int8 write_int32 read_int32
decode_number-encode_number m rest h =
    ap (λ x. decoded (number x) 9)
      (rw (be32_value (m / 4294967296), be32_value (m % 4294967296), halves m h))

decode_string-encode_string :
    (s rest : Bytes)
    → IsText s
    → length s < 65536
    → decode_string (drop 1 (encode_string s ++ rest)) ≡ decoded (string s) (3 + length s)
unfolding decode_string copied encode_string write_int8 write_int16 read_int16
decode_string-encode_string s rest t h =
    ap (λ l. copied l (strncpy l (s ++ rest))) (be16_value (length s) ∙ small_16 (length s) h)
    ∙ ap (copied (length s)) (strncpy-append s rest t)

-- One value, the values inside it being read.
decode_with-encode :
    (rec : Bytes → ℕ → Decoded AmfProperty) (k : ℕ)
    → Reads rec k
    → Reads (decode_with rec k) (suc k)
unfolding decode_with decode_at encode to_marker encode_number encode_boolean encode_string
    write_int8 write_int16 start start_marker decode_boolean to_property
decode_with-encode rec k ih v rest zero h hk hn = elim (nothing_needed v h hn) [ ]
decode_with-encode rec k ih null rest (suc n) h hk hn = refl
decode_with-encode rec k ih undefined rest (suc n) h hk hn = refl
decode_with-encode rec k ih (number m) rest (suc n) h hk hn =
    rw (le→ltb (suc n) 9 hn, decode_number-encode_number m rest h)
decode_with-encode rec k ih (boolean true) rest (suc n) h hk hn = rw (le→ltb (suc n) 2 hn)
decode_with-encode rec k ih (boolean false) rest (suc n) h hk hn = rw (le→ltb (suc n) 2 hn)
decode_with-encode rec k ih (string s) rest (suc n) h hk hn =
    rw (le→ltb (suc n) 4 (omega arith))
      (decode_string-encode_string s rest h.0 h.1 ∙ ap (decoded (string s)) (omega arith))
decode_with-encode rec k ih (array nil) rest (suc n) h hk hn = elim h.0 [ ]
decode_with-encode rec k ih (array (pair name v ps)) rest (suc n) h hk hn =
    ap (to_property AmfProperty.array)
      (decode_object_array-encode rec k ih true (pair name v ps) rest (suc n) h.1 h.0 hk hn)
decode_with-encode rec k ih (object nil) rest (suc n) h hk hn = elim h.0 [ ]
decode_with-encode rec k ih (object (pair name v ps)) rest (suc n) h hk hn =
    ap (to_property AmfProperty.object)
      (decode_object_array-encode rec k ih false (pair name v ps) rest (suc n) h.1 h.0 hk hn)

decode_fuel-encode : (k : ℕ) → Reads (decode_fuel k) k
unfolding decode_fuel
decode_fuel-encode zero v rest n h hk hn = elim (nothing_left v h hk) [ ]
decode_fuel-encode (suc k) v rest n h hk hn =
    decode_with-encode (decode_fuel k) k (decode_fuel-encode k) v rest n h hk hn

-- A property that the wire format can hold, encoded and followed by any bytes, is decoded to
-- itself and to the number of its bytes, when `data_length` is at least what it needs: its bytes,
-- and four for a string.
pub decode-encode :
    (v : AmfProperty) (rest : Bytes) (data_length : ℕ)
    → IsEncodable v
    → needed v ≤ data_length
    → decode (encode v ++ rest) data_length ≡ decoded v (length (encode v))
unfolding decode
decode-encode v rest n h hn =
    decode_fuel-encode (2 + length (encode v ++ rest)) v rest n h
      (omega (arith, length-append (encode v) rest)) hn
