-- ===== src/Nalu/ExpGolomb.antt =====
-- `ReadUEV` reads the Exp-Golomb code of the H.264 standard.
use media_engine.Base.{
  ℕ, zero, suc, refl, sym, ap, inl, inr, false, some, List, [], append_assoc, arith, leb, leb→le,
  Bool-cases, length, replicate, All, length-append, length-replicate, ◌+◌, ◌-◌, ◌*◌, ◌/◌, ◌%◌, ◌^◌,
  ◌≤◌, ◌<◌, ◌≡◌, ◌∙◌, ◌∷◌, ◌++◌, ◌==◌, if◌then◌else◌,
}
use media_engine.Base.Bytes.{Bytes}
use media_engine.Nalu.BitReader.{
  BitReader, next_bit, bit_at, read_bit, found, leading_turn, leading_zeros, shift_in, suffix_turn,
  suffix, less_one, after_leading, read_uev,
}

-- The low `n` bits of a byte, the highest first.
abbrev pub low_bits : ℕ → ℕ → List ℕ
low_bits zero b = []
low_bits (suc n) b = (b / 2 ^ n % 2) ∷ low_bits n b

abbrev pub all_bits : Bytes → List ℕ
all_bits [] = []
all_bits (b ∷ s) = low_bits 8 b ++ all_bits s

abbrev pub bits_from : Bytes → ℕ → List ℕ
bits_from [] offset = []
bits_from (b ∷ s) offset = low_bits (8 - offset) b ++ all_bits s

-- The bits that a reader has before it.
abbrev pub bits : BitReader → List ℕ
bits r = bits_from r.remaining r.bit_offset

-- The binary digits of a positive number behind its leading 1.
unfoldable pub digits : ℕ → ℕ → List ℕ
digits zero n = []
digits (suc fuel) n =
    let rest = digits fuel (n / 2) in if leb n 1 then [] else rest ++ ((n % 2) ∷ [])

-- The code of `v`: as many zeros as digits follow the leading 1 of `v + 1`, then that number.
abbrev pub ue_bits : ℕ → List ℕ
ue_bits v = replicate (length (digits (v + 1) (v + 1))) 0 ++ (1 ∷ digits (v + 1) (v + 1))

-- The number of binary digits.
abbrev value_of : ℕ → List ℕ → ℕ
value_of acc [] = acc
value_of acc (b ∷ bs) = value_of (acc * 2 + b) bs

abbrev IsBits : List ℕ → Type 0
IsBits bs = All (λ b. b < 2) bs

value_of-append :
    (acc b : ℕ) (bs : List ℕ) → value_of acc (bs ++ (b ∷ [])) ≡ value_of acc bs * 2 + b
value_of-append acc b [] = refl
value_of-append acc b (c ∷ bs) = value_of-append (acc * 2 + c) b bs

half_pos : (n : ℕ) → leb n 1 ≡ false → 1 ≤ n / 2
half_pos n more = ground arith

half_le : (fuel n : ℕ) → n ≤ suc fuel → n / 2 ≤ fuel
half_le fuel n h = omega arith

value_of-digits : (fuel n : ℕ) → 1 ≤ n → n ≤ fuel → value_of 1 (digits fuel n) ≡ n
unfolding digits
value_of-digits zero n h hf = omega arith
value_of-digits (suc fuel) n h hf = elim (Bool-cases (leb n 1)) [
  | inl one ↦ rw one (omega (arith, leb→le n 1 one))
  | inr more ↦
      rw (more, value_of-append 1 (n % 2) (digits fuel (n / 2)))
        (omega (arith, value_of-digits fuel (n / 2) (half_pos n more) (half_le fuel n hf)))
]

value_of-le : (acc : ℕ) (bs : List ℕ) → acc ≤ value_of acc bs
value_of-le acc [] = omega arith
value_of-le acc (b ∷ bs) = omega (arith, value_of-le (acc * 2 + b) bs)

pub first_bit :
    (c : ℕ) (s : Bytes) (o : ℕ)
    → o < 8
    → bits_from (c ∷ s) o ≡ (c / 2 ^ (7 - o) % 2) ∷ bits (next_bit c s o)
unfolding next_bit
first_bit c s zero h = refl
first_bit c s (suc zero) h = refl
first_bit c s (suc (suc zero)) h = refl
first_bit c s (suc (suc (suc zero))) h = refl
first_bit c s (suc (suc (suc (suc zero)))) h = refl
first_bit c s (suc (suc (suc (suc (suc zero))))) h = refl
first_bit c s (suc (suc (suc (suc (suc (suc zero)))))) h = refl
first_bit c [] (suc (suc (suc (suc (suc (suc (suc zero))))))) h = refl
first_bit c (d ∷ s) (suc (suc (suc (suc (suc (suc (suc zero))))))) h = refl
first_bit c s (suc (suc (suc (suc (suc (suc (suc (suc o)))))))) h = ground arith

pub next_offset : (c : ℕ) (s : Bytes) (o : ℕ) → o < 8 → (next_bit c s o).bit_offset < 8
unfolding next_bit
next_offset c s o h = elim (Bool-cases (o == 7)) [
  | inl last ↦ rw last (omega arith)
  | inr more ↦ rw more (ground arith)
]

-- A bit taken is the first of the bits, and the others are left.
pub read_bit-bits :
    (s : Bytes) (o b : ℕ) (t : List ℕ)
    → o < 8
    → bits_from s o ≡ b ∷ t
    → (r : BitReader) × (bit_at s o ≡ some (b, r)) × (r.bit_offset < 8) × (bits r ≡ t)
unfolding bit_at
read_bit-bits [] o b t h e = cc
read_bit-bits (c ∷ s) o b t h e =
    let both : (c / 2 ^ (7 - o) % 2) ∷ bits (next_bit c s o) ≡ b ∷ t =
      sym (first_bit c s o h) ∙ e in
    let same : c / 2 ^ (7 - o) % 2 ≡ b = cc in
    let left : bits (next_bit c s o) ≡ t = cc in
    (next_bit c s o, ap (λ x. some (x, next_bit c s o)) same, next_offset c s o h, left)

shift_in-bit : (value b : ℕ) → b < 2 → value * 2 + b < 2 ^ 32 → shift_in value b ≡ value * 2 + b
unfolding shift_in
shift_in-bit value zero h small = omega arith
shift_in-bit value (suc zero) h small = omega arith
shift_in-bit value (suc (suc b)) h small = omega arith

-- The second loop takes as many bits as it counts and adds them to the value, while that has 32.
suffix-bits :
    (bs : List ℕ) (r : BitReader) (value : ℕ) (t : List ℕ)
    → r.bit_offset < 8
    → IsBits bs
    → value_of value bs < 2 ^ 32
    → bits r ≡ bs ++ t
    → (r' : BitReader) × (suffix (length bs) r value ≡ found (value_of value bs) r') × (bits r' ≡ t)
unfolding suffix suffix_turn read_bit
suffix-bits [] r value t h d small e = (r, refl, e)
suffix-bits (b ∷ bs) r value t h d small e =
    let (r₁, taken, h₁, left) = read_bit-bits r.remaining r.bit_offset b (bs ++ t) h e in
    let (r₂, rest, after) = suffix-bits bs r₁ (value * 2 + b) t h₁ d.1 small left in
    (
      r₂,
      rw (taken, shift_in-bit value b d.0 (omega (arith, value_of-le (value * 2 + b) bs, small)))
          rest,
      after,
    )

-- The first loop counts the zeros and takes the 1 behind them.
leading_zeros-replicate :
    (fuel k : ℕ) (r : BitReader) (n : ℕ) (t : List ℕ)
    → k < fuel
    → r.bit_offset < 8
    → bits r ≡ replicate k 0 ++ (1 ∷ t)
    → (r' : BitReader) × (leading_zeros fuel r n ≡ found (n + k) r')
      × (r'.bit_offset < 8)
      × (bits r' ≡ t)
unfolding leading_zeros leading_turn read_bit
leading_zeros-replicate zero k r n t hf h e = elim hf [ ]
leading_zeros-replicate (suc fuel) zero r n t hf h e =
    let (r₁, taken, h₁, left) = read_bit-bits r.remaining r.bit_offset 1 t h e in
    (r₁, rw taken (ap (λ m. found m r₁) (omega arith)), h₁, left)
leading_zeros-replicate (suc fuel) (suc k) r n t hf h e =
    let (r₁, taken, h₁, left) =
      read_bit-bits r.remaining r.bit_offset 0 (replicate k 0 ++ (1 ∷ t)) h e in
    let (r₂, rest, h₂, after) = leading_zeros-replicate fuel k r₁ (n + 1) t (omega arith) h₁ left in
    (r₂, rw taken (rest ∙ ap (λ m. found m r₂) (omega arith)), h₂, after)

length-low_bits : (n b : ℕ) → length (low_bits n b) ≡ n
length-low_bits zero b = refl
length-low_bits (suc n) b = ap suc (length-low_bits n b)

length-all_bits : (s : Bytes) → length (all_bits s) ≡ 8 * length s
length-all_bits [] = omega arith
length-all_bits (b ∷ s) =
    omega (arith, length-append (low_bits 8 b) (all_bits s), length-low_bits 8 b, length-all_bits s)

pub length-bits_from : (s : Bytes) (o : ℕ) → length (bits_from s o) ≤ 8 * length s
length-bits_from [] o = omega arith
length-bits_from (b ∷ s) o = omega (
  arith,
  length-append (low_bits (8 - o) b) (all_bits s),
  length-low_bits (8 - o) b,
  length-all_bits s,
)

append-IsBits : (bs : List ℕ) (b : ℕ) → IsBits bs → b < 2 → IsBits (bs ++ (b ∷ []))
append-IsBits [] b h e = (e, tt)
append-IsBits (c ∷ bs) b h e = (h.0, append-IsBits bs b h.1 e)

digits-IsBits : (fuel n : ℕ) → IsBits (digits fuel n)
unfolding digits
digits-IsBits zero n = tt
digits-IsBits (suc fuel) n = elim (Bool-cases (leb n 1)) [
  | inl one ↦ rw one tt
  | inr more ↦
      rw more
        (append-IsBits (digits fuel (n / 2)) (n % 2) (digits-IsBits fuel (n / 2)) (omega arith))
]

-- `ReadUEV` on a reader whose next bits are the Exp-Golomb code of a number below 2 ^ 32 - 1: it
-- returns that number, and leaves exactly the bits behind the code.
pub read_uev-ue_bits :
    (r : BitReader) (v : ℕ) (t : List ℕ)
    → r.bit_offset < 8
    → v + 1 < 2 ^ 32
    → bits r ≡ ue_bits v ++ t
    → (r' : BitReader) × (read_uev r ≡ found v r') × (bits r' ≡ t)
unfolding read_uev after_leading less_one
read_uev-ue_bits r v t h small e =
    let ds = digits (v + 1) (v + 1) in
    let k = length ds in
    let value = value_of-digits (v + 1) (v + 1) (omega arith) (omega arith) in
    let e' : bits r ≡ replicate k 0 ++ (1 ∷ (ds ++ t)) =
      e ∙ append_assoc (replicate k 0) (1 ∷ ds) t in
    let long = ap length e' ∙ length-append (replicate k 0) (1 ∷ (ds ++ t)) in
    let (r₁, counted, h₁, left) =
      leading_zeros-replicate (8 * length r.remaining + 1) k r 0 (ds ++ t)
        (omega
          (arith, long, length-replicate {A = ℕ} k 0, length-bits_from r.remaining r.bit_offset))
        h e' in
    let (r₂, read, after) =
      suffix-bits ds r₁ 1 t h₁ (digits-IsBits (v + 1) (v + 1)) (omega (arith, value)) left in
    (
      r₂,
      ap after_leading (counted ∙ ap (λ m. found m r₁) (omega arith))
          ∙ ap less_one read
          ∙ ap (λ m. found m r₂) (omega (arith, value)),
      after,
    )
