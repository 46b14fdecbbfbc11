-- ===== src/Url.antt =====
-- common/src/core/url.cpp: `Encode` and `Decode` of a text in a query. `isalnum` and `isxdigit` are
-- those of the C locale.
mod Tests
pub mod Escapes
use media_engine.Base.{
  ℕ, zero, suc, Bool, true, false, [], ltb, leb, ◌+◌, ◌-◌, ◌*◌, ◌/◌, ◌%◌, ◌&&◌, ◌||◌, ◌∷◌, ◌++◌,
  ◌==◌, if◌then◌else◌,
}
use media_engine.Base.Bytes.{Bytes}

abbrev pub between : ℕ → ℕ → ℕ → Bool
between low high c = leb low c && leb c high

-- Letters, digits, and "-", "_", "." and "~".
unfoldable pub is_unreserved : ℕ → Bool
is_unreserved c =
    between 0x30 0x39 c
    || between 0x41 0x5a c
    || between 0x61 0x7a c
    || c == 0x2d
    || c == 0x5f
    || c == 0x2e
    || c == 0x7e

-- `hex_table`
unfoldable pub hex_table : ℕ → ℕ
hex_table n = if ltb n 10 then 0x30 + n else 0x57 + n

-- A round of `Encode`.
unfoldable pub encode_char : ℕ → Bytes
unfolding is_unreserved hex_table
encode_char c =
    if is_unreserved c
    then c ∷ []
    else if c == 0x20
    then 0x2b ∷ []
    else 0x25 ∷ hex_table (c / 16) ∷ hex_table (c % 16) ∷ []

-- `Url::Encode`, which ends at a byte of 0.
unfoldable pub url_encode : Bytes → Bytes
unfolding encode_char
url_encode [] = []
url_encode (zero ∷ s) = []
url_encode (suc c ∷ s) = encode_char (suc c) ++ url_encode s

unfoldable pub is_xdigit : ℕ → Bool
is_xdigit c = between 0x30 0x39 c || between 0x41 0x46 c || between 0x61 0x66 c

-- `strtol` of one such digit.
unfoldable pub digit_value : ℕ → ℕ
digit_value c = if leb c 0x39 then c - 0x30 else if leb c 0x46 then c - 0x37 else c - 0x57

-- The test for an escape, and its character.
unfoldable pub is_escape : ℕ → ℕ → ℕ → Bool
unfolding is_xdigit
is_escape c x y = c == 0x25 && (is_xdigit x && is_xdigit y)

-- `Url::Decode`. The blank that it makes of a "+" is never stored.
unfoldable pub url_decode : Bytes → Bytes
unfolding is_escape digit_value
url_decode [] = []
url_decode (c ∷ []) = c ∷ []
url_decode (c ∷ x ∷ []) = c ∷ x ∷ []
url_decode (c ∷ x ∷ y ∷ s) = elim (is_escape c x y) [
  | true ↦ (digit_value x * 16 + digit_value y) ∷ url_decode s
  | false ↦ c ∷ url_decode (x ∷ y ∷ s)
]
