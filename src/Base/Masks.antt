-- ===== src/Base/Masks.antt =====
-- Masks on one byte as arithmetic, each a table checked by evaluation.
use Prim.Native.Nat.{ℕ, zero, suc, ◌*◌, ◌/◌, ◌%◌, ◌<◌, bit_and, bit_or}
use mathlib.Core.Path.{◌≡◌, refl}
use mathlib.Core.Logic.{◌⊎◌, inl, inr}
use mathlib.Core.Bool.{Bool, true, false}
use native.Mathlib.Omega.{arith}
use media_engine.Base.Tests.{◌==◌, ==_iff, Bool-cases, if◌then◌else◌}

-- Whether two functions have equal values at 0 to `bound - 1`.
unfoldable pub agree : (ℕ → ℕ) → (ℕ → ℕ) → ℕ → Bool
agree f g zero = true
agree f g (suc bound) = let below = agree f g bound in if f bound == g bound then below else false

lower_or_last : (v bound : ℕ) → v < suc bound → (v < bound) ⊎ (v ≡ bound)
lower_or_last v bound small = omega arith

module _ (f g : ℕ → ℕ) where
  pub agree_at : (bound : ℕ) → agree f g bound ≡ true → (v : ℕ) → v < bound → f v ≡ g v
  unfolding agree
  agree_at zero table v small = elim small [ ]
  agree_at (suc bound) table v small = elim (Bool-cases (f bound == g bound)) [
    | inl same ↦ elim (lower_or_last v bound small) [
      | inl lower ↦ agree_at bound (rw same at table) v lower
      | inr last ↦ rw last ((==_iff (f bound) (g bound)).0 same)
    ]
    | inr other ↦ ground (arith, rw other at table)
  ]

pub low_six : (b : ℕ) → b < 256 → bit_and b 0x3f ≡ b % 64
low_six = agree_at _ (λ b. b % 64) 256 (unfold agree in refl)

pub high_two : (b : ℕ) → b < 256 → bit_and b 0xc0 ≡ b / 64 * 64
high_two = agree_at _ (λ b. b / 64 * 64) 256 (unfold agree in refl)

pub or_192 : (b : ℕ) → b < 64 → bit_or 0xc0 b ≡ bit_or b 0xc0
or_192 = agree_at _ (λ b. bit_or b 0xc0) 64 (unfold agree in refl)

pub or_none : (b : ℕ) → b < 256 → bit_or 0 b ≡ b
or_none = agree_at _ (λ b. b) 256 (unfold agree in refl)

-- A byte from its high bits and its low ones.
pub or_low_three : (b : ℕ) → b < 256 → bit_or (b / 8 * 8) (b % 8) ≡ b
or_low_three = agree_at _ (λ b. b) 256 (unfold agree in refl)

pub or_low_seven : (b : ℕ) → b < 256 → bit_or (b / 128 * 128) (b % 128) ≡ b
or_low_seven = agree_at _ (λ b. b) 256 (unfold agree in refl)
