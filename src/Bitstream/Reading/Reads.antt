-- ===== src/Bitstream/Reading/Reads.antt =====
-- What a parser reads off the front of the bits.
use media_engine.Base.{
  ℕ, refl, ap, Bool, true, false, List, [], append_assoc, ◌+◌, ◌^◌, ◌<◌, ◌≡◌, ◌∙◌, ◌∷◌, ◌++◌,
  if◌then◌else◌,
}
use media_engine.Nalu.BitReader.{BitReader, read_bit}
use media_engine.Nalu.ExpGolomb.{bits, ue_bits, read_bit-bits, read_uev-ue_bits}
use media_engine.Bitstream.Reading.{
  Outcome, done, Parser, pure, continue, ◌>>=◌, ◌>>◌, bit, of_bit, uev, of_read,
}
use media_engine.Bitstream.Reading.Ends.{Ended, Ends-uev}

-- On every reader inside a byte whose next bits are `xs`, the parser returns `a` and leaves the
-- others.
abbrev pub After {ℓ} : {A : Type ℓ} → Outcome A → A → List ℕ → Type ℓ
After o a t = (r : BitReader) × (o ≡ done a r) × (r.bit_offset < 8) × (bits r ≡ t)

pub record Reads {ℓ} {A : Type ℓ} (m : Parser A) (xs : List ℕ) (a : A) : Type ℓ where
  pub at : (r : BitReader) (t : List ℕ) → r.bit_offset < 8 → bits r ≡ xs ++ t → After (m r) a t

pub Reads-pure {ℓ} : {A : Type ℓ} (a : A) → Reads (pure a) [] a
Reads-pure a = record { at = λ r t h e. (r, refl, h, e) }

pub Reads-bit : (b : ℕ) → Reads bit (b ∷ []) b
unfolding bit read_bit
Reads-bit b = record {
  at = λ r t h e.
      let (r', taken, inside, left) = read_bit-bits r.remaining r.bit_offset b t h e in
      (r', ap of_bit taken, inside, left);
}

done_offset : (o : Outcome ℕ) (v : ℕ) (r : BitReader) → Ended o → o ≡ done v r → r.bit_offset < 8
done_offset o v r h e = rw e at h

pub Reads-uev : (v : ℕ) → v + 1 < 2 ^ 32 → Reads uev (ue_bits v) v
unfolding uev
Reads-uev v small = record {
  at = λ r t h e.
      let (r', read, left) = read_uev-ue_bits r v t h small e in
      (r', ap of_read read, done_offset (uev r) v r' (Ends-uev.at r h) (ap of_read read), left);
}

pub Reads-value {ℓ} :
    {A : Type ℓ} {m : Parser A} {xs : List ℕ} {a b : A} → a ≡ b → Reads m xs a → Reads m xs b
Reads-value e h = rw e at h

module _ {ℓ κ} {A : Type ℓ} {B : Type κ} where
  pub Reads-bind :
      {m : Parser A} (f : A → Parser B) {xs ys : List ℕ} {a : A} {b : B}
      → Reads m xs a
      → Reads (f a) ys b
      → Reads (m >>= f) (xs ++ ys) b
  Reads-bind f {xs} {ys} {a} hm hf = record {
    at = λ r t h e.
        let (r₁, first, inside, left) = hm.at r (ys ++ t) h (e ∙ append_assoc xs ys t) in
        let (r₂, second, inside', left') = hf.at r₁ t inside left in
        (r₂, ap (λ o. continue o f) first ∙ second, inside', left');
  }

  -- A step whose value nothing looks at.
  pub Reads-then :
      {m : Parser A} (n : Parser B) {xs ys : List ℕ} {a : A} {b : B}
      → Reads m xs a
      → Reads n ys b
      → Reads (m >> n) (xs ++ ys) b
  Reads-then n hm hn = Reads-bind (λ _. n) hm hn

  pub Reads-map :
      {m : Parser A} (f : A → B) {xs : List ℕ} {a : A}
      → Reads m xs a
      → Reads (m >>= λ x. pure (f x)) xs (f a)
  Reads-map f hm = record {
    at = λ r t h e.
        let (r', first, inside, left) = hm.at r t h e in
        (r', ap (λ o. continue o (λ x. pure (f x))) first, inside, left);
  }

pub Reads-if {ℓ} :
    {A : Type ℓ} (c : Bool) (m n : Parser A) {xs : List ℕ} {a : A}
    → (c ≡ true → Reads m xs a)
    → (c ≡ false → Reads n xs a)
    → Reads (if c then m else n) xs a
Reads-if true m n hm hn = hm refl
Reads-if false m n hm hn = hn refl
