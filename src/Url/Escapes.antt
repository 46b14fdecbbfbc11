-- ===== src/Url/Escapes.antt =====
-- What comes back of an encoded text.
use media_engine.Base.{
  ℕ, zero, suc, refl, ap, inl, inr, true, false, [], arith, Bool-cases, All, ◌+◌, ◌*◌, ◌/◌, ◌%◌,
  ◌<◌, ◌≡◌, ◌∙◌, ◌≢◌, ◌∷◌, ◌++◌, ◌==◌, if◌then◌else◌,
}
use media_engine.Base.Bytes.{Bytes, IsByte}
use mathlib.Core.List.{map}
use media_engine.Url.{
  is_unreserved, hex_table, encode_char, url_encode, is_xdigit, digit_value, is_escape, url_decode,
}

-- Every blank as a "+".
abbrev pub plus_for_blank : ℕ → ℕ
plus_for_blank c = if c == 0x20 then 0x2b else c

not_escape : (c x y : ℕ) → c ≢ 0x25 → is_escape c x y ≡ false
unfolding is_escape
not_escape c x y h = ground arith

url_decode-plain : (c : ℕ) (s : Bytes) → c ≢ 0x25 → url_decode (c ∷ s) ≡ c ∷ url_decode s
unfolding url_decode
url_decode-plain c [] h = refl
url_decode-plain c (x ∷ []) h = refl
url_decode-plain c (x ∷ y ∷ s) h =
    ap
      (λ b. elim b as (λ _. Bytes) [
        | true ↦ (digit_value x * 16 + digit_value y) ∷ url_decode s
        | false ↦ c ∷ url_decode (x ∷ y ∷ s)
      ])
      (not_escape c x y h)

hex_digit : (n : ℕ) → n < 16 → is_xdigit (hex_table n) ≡ true
unfolding is_xdigit hex_table
hex_digit n h = ground arith

hex_value : (n : ℕ) → n < 16 → digit_value (hex_table n) ≡ n
unfolding digit_value hex_table
hex_value n h = ground arith

hex_escape : (m n : ℕ) → m < 16 → n < 16 → is_escape 0x25 (hex_table m) (hex_table n) ≡ true
unfolding is_escape
hex_escape m n hm hn = rw (hex_digit m hm, hex_digit n hn)

hex_byte :
    (c : ℕ)
    → IsByte c
    → digit_value (hex_table (c / 16)) * 16 + digit_value (hex_table (c % 16)) ≡ c
hex_byte c h = rw (hex_value (c / 16) (omega arith), hex_value (c % 16) (omega arith)) (omega arith)

url_decode-escape :
    (c : ℕ) (s : Bytes)
    → IsByte c
    → url_decode (0x25 ∷ hex_table (c / 16) ∷ hex_table (c % 16) ∷ s) ≡ c ∷ url_decode s
unfolding url_decode
url_decode-escape c s h =
    let x = hex_table (c / 16) in
    let y = hex_table (c % 16) in
    ap
      (λ b. elim b as (λ _. Bytes) [
        | true ↦ (digit_value x * 16 + digit_value y) ∷ url_decode s
        | false ↦ 0x25 ∷ url_decode (x ∷ y ∷ s)
      ])
      (hex_escape (c / 16) (c % 16) (omega arith) (omega arith))
    ∙ ap (λ b. b ∷ url_decode s) (hex_byte c h)

unreserved_plain : (c : ℕ) → is_unreserved c ≡ true → c ≢ 0x25
unfolding is_unreserved
unreserved_plain c h = ground arith

unreserved_no_blank : (c : ℕ) → is_unreserved c ≡ true → (c == 0x20) ≡ false
unfolding is_unreserved
unreserved_no_blank c h = ground arith

decode-char :
    (c : ℕ) (s : Bytes)
    → IsByte c
    → url_decode (encode_char c ++ s) ≡ plus_for_blank c ∷ url_decode s
unfolding encode_char
decode-char c s h = elim (Bool-cases (is_unreserved c)) [
  | inl e ↦ rw (e, unreserved_no_blank c e) (url_decode-plain c s (unreserved_plain c e))
  | inr e ↦ elim (Bool-cases (c == 0x20)) [
    | inl blank ↦ rw (e, blank) (url_decode-plain 0x2b s (omega arith))
    | inr other ↦ rw (e, other) (url_decode-escape c s h)
  ]
]

-- The bytes of a text before its first 0, which are all where there is none.
unfoldable pub c_string : Bytes → Bytes
c_string [] = []
c_string (zero ∷ s) = []
c_string (suc c ∷ s) = suc c ∷ c_string s

-- `Url::Decode` undoes `Url::Encode` on every text, as far as its first byte of 0, but for the
-- blanks: each comes back as the "+" that it was encoded by.
pub url_decode-url_encode :
    (s : Bytes) → All IsByte s → url_decode (url_encode s) ≡ map plus_for_blank (c_string s)
unfolding url_encode url_decode c_string
url_decode-url_encode [] h = refl
url_decode-url_encode (zero ∷ s) h = refl
url_decode-url_encode (suc c ∷ s) h =
    decode-char (suc c) (url_encode s) h.0
    ∙ ap (λ t. plus_for_blank (suc c) ∷ t) (url_decode-url_encode s h.1)
