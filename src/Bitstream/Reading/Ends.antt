-- ===== src/Bitstream/Reading/Ends.antt =====
-- Parsers that end, with a rule for each way to build one.
use media_engine.Base.{
  ℕ, zero, suc, refl, ap, inl, inr, Bool, true, false, some, [], arith, ltb, Bool-cases, length,
  ◌+◌, ◌-◌, ◌*◌, ◌/◌, ◌%◌, ◌^◌, ◌≤◌, ◌<◌, ◌≡◌, ◌≢◌, ◌∷◌, ◌==◌, if◌then◌else◌,
}
use media_engine.Base.Bytes.{Bytes}
use media_engine.Nalu.Emulation.{Parsed}
use media_engine.Nalu.BitReader.{
  BitReader, Read, next_bit, bit_at, read_bit, leading_turn, leading_zeros, suffix_turn, suffix,
  less_one, after_leading, read_uev, keep_value, read_sev,
}
use media_engine.Nalu.ExpGolomb.{bits_from, bits, first_bit, next_offset, length-bits_from}
use media_engine.Nalu.ReadBits.{BitsRead, bits_from_this_byte, advance, bits_loop, read_bits}
use media_engine.Nalu.ReadBits
use media_engine.Bitstream.Reading.{
  Outcome, rejected, crash, stuck, done, Parser, pure, fail, continue, ◌>>=◌, of_bits, bit, of_bit,
  of_read, uev, sev, skip_bytes, run_on,
}
use media_engine.Bitstream.Reading

-- No loop is out of fuel, and a reader that is left stands inside a byte.
abbrev pub Ended {ℓ} : {A : Type ℓ} → Outcome A → Type 0
Ended rejected = Unit {0}
Ended crash = Unit {0}
Ended stuck = ⊥
Ended (done a r) = r.bit_offset < 8

pub record Ends {ℓ} {A : Type ℓ} (m : Parser A) : Type ℓ where
  pub at : (r : BitReader) → r.bit_offset < 8 → Ended (m r)

module _ {ℓ} {A : Type ℓ} where
  pub Ends-pure : (a : A) → Ends (pure a)
  Ends-pure a = record { at = λ r h. h }

  pub Ends-fail : Ends (fail {A = A})
  Ends-fail = record { at = λ r h. tt }

  pub Ends-if : (b : Bool) (m n : Parser A) → Ends m → Ends n → Ends (if b then m else n)
  Ends-if true m n hm hn = hm
  Ends-if false m n hm hn = hn

  pub Ended-run_on : (m : Parser A) (p : Parsed) → Ends m → p ≢ Parsed.stuck → Ended (run_on m p)
  Ended-run_on m Parsed.overread h e = tt
  Ended-run_on m Parsed.stuck h e = absurd (e refl)
  Ended-run_on m (Parsed.parsed bytes) h e = h.at _ (omega arith)

module _ {ℓ κ} {A : Type ℓ} {B : Type κ} where
  Ended-continue :
      (o : Outcome A) (f : A → Parser B) → Ended o → ((a : A) → Ends (f a)) → Ended (continue o f)
  Ended-continue rejected f h hf = tt
  Ended-continue crash f h hf = tt
  Ended-continue stuck f h hf = h
  Ended-continue (done a r) f h hf = (hf a).at r h

  pub Ends-bind :
      (m : Parser A) (f : A → Parser B) → Ends m → ((a : A) → Ends (f a)) → Ends (m >>= f)
  Ends-bind m f hm hf = record { at = λ r h. Ended-continue (m r) f (hm.at r h) hf }

Ended-bit_at : (s : Bytes) (o : ℕ) → o < 8 → Ended (of_bit (bit_at s o))
unfolding bit_at
Ended-bit_at [] o h = tt
Ended-bit_at (b ∷ s) o h = next_offset b s o h

pub Ends-bit : Ends bit
unfolding bit read_bit
Ends-bit = record { at = λ r h. Ended-bit_at r.remaining r.bit_offset h }

-- A round of either loop of `ReadUEV` takes one bit.
fewer_bits :
    (b : ℕ) (s : Bytes) (o : ℕ)
    → o < 8
    → length (bits (next_bit b s o)) + 1 ≡ length (bits_from (b ∷ s) o)
fewer_bits b s o h = omega (arith, ap length (first_bit b s o h))

leading_turn-ends :
    (fuel : ℕ)
    → ((r : BitReader) (count : ℕ)
        → r.bit_offset < 8
        → length (bits r) < fuel
        → Ended (of_read (leading_zeros fuel r count)))
    → (b : ℕ) (r : BitReader) (count : ℕ) → r.bit_offset < 8
    → length (bits r) < fuel
    → Ended (of_read (leading_turn (λ r' count'. leading_zeros fuel r' count') count (some (b, r))))
unfolding leading_turn
leading_turn-ends fuel again zero r count h f = again r (count + 1) h f
leading_turn-ends fuel again (suc b) r count h f = h

leading_zeros-ends :
    (fuel : ℕ) (s : Bytes) (o count : ℕ)
    → o < 8
    → length (bits_from s o) < fuel
    → Ended (of_read (leading_zeros fuel (record { remaining = s; bit_offset = o }) count))
unfolding leading_zeros leading_turn read_bit bit_at
leading_zeros-ends zero s o count h f = absurd (omega arith)
leading_zeros-ends (suc fuel) [] o count h f = tt
leading_zeros-ends (suc fuel) (b ∷ s) o count h f =
    leading_turn-ends fuel (λ r c. leading_zeros-ends fuel r.remaining r.bit_offset c)
      (b / 2 ^ (7 - o) % 2) (next_bit b s o) count (next_offset b s o h)
      (omega (arith, fewer_bits b s o h))

suffix-ends :
    (count : ℕ) (s : Bytes) (o value : ℕ)
    → o < 8
    → Ended (of_read (suffix count (record { remaining = s; bit_offset = o }) value))
unfolding suffix suffix_turn read_bit bit_at
suffix-ends zero s o value h = h
suffix-ends (suc count) [] o value h = tt
suffix-ends (suc count) (b ∷ s) o value h =
    let r = next_bit b s o in suffix-ends count r.remaining r.bit_offset _ (next_offset b s o h)

less_one-ends : (m : Read) → Ended (of_read m) → Ended (of_read (less_one m))
unfolding less_one
less_one-ends Read.failed h = h
less_one-ends Read.stuck h = h
less_one-ends (Read.found v r) h = h

after_leading-ends : (m : Read) → Ended (of_read m) → Ended (of_read (after_leading m))
unfolding after_leading
after_leading-ends Read.failed h = h
after_leading-ends Read.stuck h = h
after_leading-ends (Read.found count r) h =
    less_one-ends (suffix count r 1) (suffix-ends count r.remaining r.bit_offset 1 h)

pub Ends-uev : Ends uev
unfolding uev read_uev
Ends-uev = record {
  at = λ r h. after_leading-ends _ (
      leading_zeros-ends (8 * length r.remaining + 1) r.remaining r.bit_offset 0 h
        (omega (arith, length-bits_from r.remaining r.bit_offset)));
}

keep_value-ends : (m : Read) → Ended (of_read m) → Ended (of_read (keep_value 0 m))
unfolding keep_value
keep_value-ends Read.failed h = h
keep_value-ends Read.stuck h = h
keep_value-ends (Read.found v r) h = h

pub Ends-sev : Ends sev
unfolding sev read_sev uev
Ends-sev = record { at = λ r h. keep_value-ends (read_uev r) (Ends-uev.at r h) }

pub Ends-skip_bytes : (count : ℕ) → Ends (skip_bytes count)
unfolding skip_bytes
Ends-skip_bytes count = record {
  at = λ r h. elim (Bool-cases (ltb (length r.remaining) count)) [
    | inl short ↦ rw short tt
    | inr enough ↦ rw enough h
  ];
}

-- A round of `ReadBits` takes a bit at least, and none behind the byte.
round_size :
    (count o : ℕ)
    → 0 < count
    → o < 8
    → (0 < bits_from_this_byte count o)
      × (bits_from_this_byte count o + o ≤ 8)
      × (bits_from_this_byte count o ≤ count)
unfolding bits_from_this_byte
round_size count o h k = ground arith

advance_offset : (b : ℕ) (s : Bytes) (o : ℕ) → o ≤ 8 → (advance b s o).bit_offset < 8
unfolding advance
advance_offset b s o h = ground arith

bits_loop-ends :
    (fuel width : ℕ) (s : Bytes) (o count value : ℕ)
    → o < 8
    → count ≤ fuel
    → Ended (of_bits (bits_loop fuel width s o count value))
unfolding bits_loop
bits_loop-ends fuel width s o zero value h f = h
bits_loop-ends zero width s o (suc count) value h f = absurd (omega arith)
bits_loop-ends (suc fuel) width [] o (suc count) value h f = tt
bits_loop-ends (suc fuel) width (b ∷ s) o (suc count) value h f =
    let n = bits_from_this_byte (suc count) o in
    let (some_bits, inside, most) = round_size (suc count) o (omega arith) h in
    let r = advance b s (o + n) in
    bits_loop-ends fuel width r.remaining r.bit_offset (suc count - n) _
      (advance_offset b s (o + n) (omega arith)) (omega arith)

Ended-if :
    (b : Bool) (x y : BitsRead)
    → Ended (of_bits x)
    → Ended (of_bits y)
    → Ended (of_bits (if b then x else y))
Ended-if true x y hx hy = hx
Ended-if false x y hx hy = hy

pub Ends-bits : (width count : ℕ) → Ends (Reading.bits width count)
unfolding Reading.bits read_bits
Ends-bits width count = record {
  at = λ r h. Ended-if (ltb width count) ReadBits.refused _ tt (
      Ended-if (count == 0) ReadBits.refused _ tt (
        Ended-if (ltb (length r.remaining) ((count + 7) / 8)) ReadBits.refused _ tt
          (bits_loop-ends count width r.remaining r.bit_offset count 0 h (omega arith))));
}

pub ruleset ends_rules = (
  Ends-pure, Ends-fail, Ends-if, Ends-bind, Ends-bit, Ends-uev, Ends-sev, Ends-skip_bytes,
  Ends-bits,
)
