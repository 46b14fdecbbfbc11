-- ===== src/Base/Bytes.antt =====
-- Bytes, and numbers of several bytes in both byte orders.
use Prim.Native.Nat.{ℕ, ◌+◌, ◌*◌, ◌/◌, ◌%◌, ◌<◌}
use mathlib.Core.Path.{◌≡◌}
use mathlib.Core.List.{List, [], ◌∷◌}
use native.Mathlib.Omega.{arith}

abbrev pub Bytes : Type 0
Bytes = List ℕ

abbrev pub IsByte : ℕ → Type 0
IsByte b = b < 256

-- The bytes that a store of the low 16, 24 or 32 bits of `v` writes, big end first.
abbrev pub be16 : ℕ → Bytes
be16 v = (v / 256 % 256) ∷ (v % 256) ∷ []

abbrev pub be24 : ℕ → Bytes
be24 v = (v / 65536 % 256) ∷ (v / 256 % 256) ∷ (v % 256) ∷ []

abbrev pub be32 : ℕ → Bytes
be32 v = (v / 16777216 % 256) ∷ (v / 65536 % 256) ∷ (v / 256 % 256) ∷ (v % 256) ∷ []

-- The same, little end first.
abbrev pub le32 : ℕ → Bytes
le32 v = (v % 256) ∷ (v / 256 % 256) ∷ (v / 65536 % 256) ∷ (v / 16777216 % 256) ∷ []

pub be16_value : (v : ℕ) → v / 256 % 256 * 256 + v % 256 ≡ v % 65536
be16_value v = omega arith

pub be24_value : (v : ℕ) → v / 65536 % 256 * 65536 + v / 256 % 256 * 256 + v % 256 ≡ v % 16777216
be24_value v = omega arith

pub be32_value :
    (v : ℕ)
    → v / 16777216 % 256 * 16777216 + v / 65536 % 256 * 65536 + v / 256 % 256 * 256 + v % 256
      ≡ v % 4294967296
be32_value v = omega arith
