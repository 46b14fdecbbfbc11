-- ===== src/Nalu/Unescape.antt =====
-- What the parser's constructor makes of escaped and of unfit NAL units.
use media_engine.Base.{
  ℕ, zero, suc, refl, ap, inl, inr, Bool, true, false, Option, none, some, [], arith, leb, ==_iff,
  Bool-cases, length, take, drop, length-append, ◌-◌, ◌≤◌, ◌≡◌, ◌∙◌, ◌≢◌, ◌∷◌, ◌++◌, ◌==◌,
  if◌then◌else◌,
}
use media_engine.Base.Bytes.{Bytes}
use media_engine.Nalu.Emulation.{
  Parsed, overread, stuck, parsed, is_prevention, emplace, round, parser_loop,
  nal_unit_bitstream_parser,
}

-- The encoder's side, as the H.264 standard has it: 03 after two zeros, where a byte up to 3
-- follows.
unfoldable pub escape : Bytes → Bytes
escape [] = []
escape (zero ∷ zero ∷ c ∷ s) =
    let more = escape (c ∷ s) in 0 ∷ 0 ∷ (if leb c 3 then 3 ∷ more else more)
escape (b ∷ s) = b ∷ escape s

-- The last byte is not 0, as the stop bit of a payload guarantees.
abbrev pub IsStopped : Bytes → Type 0
IsStopped [] = Unit
IsStopped (b ∷ []) = 1 ≤ b
IsStopped (b ∷ c ∷ s) = IsStopped (c ∷ s)

-- A byte that is kept, and the two zeros in front of a byte that is not.
one_round :
    (fuel b : ℕ) (s : Bytes) (left : ℕ)
    → is_prevention (b ∷ s) ≡ some false
    → parser_loop (suc fuel) (b ∷ s) (suc left) ≡ emplace (b ∷ []) (parser_loop fuel s left)
unfolding parser_loop round
one_round fuel b s left plain =
    rw plain (ap (λ n. emplace (b ∷ []) (parser_loop fuel s n)) (omega arith))

prevention_round :
    (fuel : ℕ) (s : Bytes) (left : ℕ)
    → parser_loop (suc fuel) (0 ∷ 0 ∷ 3 ∷ s) (suc (suc (suc left)))
      ≡ emplace (0 ∷ 0 ∷ []) (parser_loop fuel s left)
unfolding parser_loop round is_prevention
prevention_round fuel s left = ap (λ n. emplace (0 ∷ 0 ∷ []) (parser_loop fuel s n)) (omega arith)

IsStopped-tail : (b : ℕ) (s : Bytes) → IsStopped (b ∷ s) → IsStopped s
IsStopped-tail b [] h = tt
IsStopped-tail b (c ∷ s) h = h

emplace-parsed :
    (bs : Bytes) {p : Parsed} {out : Bytes} → p ≡ parsed out → emplace bs p ≡ parsed (bs ++ out)
unfolding emplace
emplace-parsed bs e = rw e refl

length-escape_pos : (b : ℕ) (s : Bytes) → 1 ≤ length (escape (b ∷ s))
unfolding escape
length-escape_pos (suc b) s = omega arith
length-escape_pos zero [] = omega arith
length-escape_pos zero (zero ∷ []) = omega arith
length-escape_pos zero (zero ∷ c ∷ s) = omega arith
length-escape_pos zero (suc c ∷ s) = omega arith

not_prevention :
    (c : ℕ) (s : Bytes) → leb (suc c) 3 ≡ false → is_prevention (0 ∷ 0 ∷ suc c ∷ s) ≡ some false
unfolding is_prevention
not_prevention c s large = ap some (ground arith)

loop-escape :
    (fuel : ℕ) (r rest : Bytes)
    → IsStopped r
    → length (escape r) ≤ fuel
    → parser_loop fuel (escape r ++ rest) (length (escape r)) ≡ parsed r
unfolding escape
loop-escape fuel [] rest h hf = unfold parser_loop in refl
loop-escape zero (b ∷ s) rest h hf = ground (arith, length-escape_pos b s)
loop-escape (suc fuel) (suc b ∷ s) rest h hf =
    one_round fuel (suc b) (escape s ++ rest) (length (escape s)) (unfold is_prevention in refl)
    ∙ emplace-parsed (suc b ∷ [])
        (loop-escape fuel s rest (IsStopped-tail (suc b) s h) (omega arith))
loop-escape (suc fuel) (zero ∷ []) rest h hf = elim h [ ]
loop-escape (suc fuel) (zero ∷ zero ∷ []) rest h hf = elim h [ ]
loop-escape (suc fuel) (zero ∷ suc c ∷ s) rest h hf =
    one_round fuel 0 (escape (suc c ∷ s) ++ rest) (length (escape (suc c ∷ s)))
      (unfold is_prevention in refl)
    ∙ emplace-parsed (0 ∷ []) (loop-escape fuel (suc c ∷ s) rest h (omega arith))
loop-escape (suc fuel) (zero ∷ zero ∷ zero ∷ s) rest h hf =
    prevention_round fuel (escape (zero ∷ s) ++ rest) (length (escape (zero ∷ s)))
    ∙ emplace-parsed (0 ∷ 0 ∷ []) (loop-escape fuel (zero ∷ s) rest h (omega arith))
loop-escape (suc fuel) (zero ∷ zero ∷ suc c ∷ s) rest h hf = elim (Bool-cases (leb (suc c) 3)) [
  | inl small ↦ rw small (
      prevention_round fuel (escape (suc c ∷ s) ++ rest) (length (escape (suc c ∷ s)))
      ∙ emplace-parsed (0 ∷ 0 ∷ [])
          (loop-escape fuel (suc c ∷ s) rest h (omega (arith, rw small at hf))))
  | inr large ↦ rw large (
      one_round fuel 0 (0 ∷ (escape (suc c ∷ s) ++ rest)) (suc (length (escape (suc c ∷ s))))
        (not_prevention c (escape s ++ rest) large)
      ∙ emplace-parsed (0 ∷ [])
          (loop-escape fuel (zero ∷ suc c ∷ s) rest h (omega (arith, rw large at hf))))
]

length-one_more : (s : Bytes) → length (s ++ (0 ∷ [])) ≡ suc (length s)
length-one_more s = omega (arith, length-append s (0 ∷ []))

emplace-overread : (bs : Bytes) {p : Parsed} → p ≡ overread → emplace bs p ≡ overread
unfolding emplace
emplace-overread bs e = rw e refl

loop-overread :
    (fuel : ℕ) (s : Bytes)
    → length s ≤ fuel
    → parser_loop (suc fuel) (s ++ (0 ∷ [])) (suc (length s)) ≡ overread
loop-overread fuel [] h = unfold parser_loop is_prevention round in refl
loop-overread fuel (zero ∷ []) h = unfold parser_loop is_prevention round in refl
loop-overread zero (b ∷ c ∷ s) h = elim h [ ]
loop-overread zero (suc b ∷ []) h = elim h [ ]
loop-overread (suc fuel) (suc b ∷ s) h =
    one_round (suc fuel) (suc b) (s ++ (0 ∷ [])) (suc (length s)) (unfold is_prevention in refl)
    ∙ emplace-overread (suc b ∷ []) (loop-overread fuel s (omega arith))
loop-overread (suc fuel) (zero ∷ suc b ∷ s) h =
    one_round (suc fuel) 0 ((suc b ∷ s) ++ (0 ∷ [])) (suc (length (suc b ∷ s)))
      (unfold is_prevention in refl)
    ∙ emplace-overread (0 ∷ []) (loop-overread fuel (suc b ∷ s) (omega arith))
loop-overread (suc fuel) (zero ∷ zero ∷ []) h =
    one_round (suc fuel) 0 (0 ∷ 0 ∷ []) 2 (unfold is_prevention in refl)
    ∙ emplace-overread (0 ∷ []) (loop-overread fuel (zero ∷ []) (omega arith))
loop-overread (suc fuel) (zero ∷ zero ∷ c ∷ s) h = elim (Bool-cases (c == 3)) [
  | inl three ↦ rw ((==_iff c 3).0 three) (
      prevention_round (suc fuel) (s ++ (0 ∷ [])) (suc (length s))
      ∙ emplace-overread (0 ∷ 0 ∷ []) (loop-overread fuel s (omega arith)))
  | inr other ↦
      one_round (suc fuel) 0 (0 ∷ c ∷ (s ++ (0 ∷ []))) (suc (suc (suc (length s))))
        (unfold is_prevention in ap some other)
      ∙ emplace-overread (0 ∷ []) (loop-overread fuel (zero ∷ c ∷ s) (omega arith))
]

-- A payload whose last byte is not 0, escaped as the H.264 standard says: the constructor takes the
-- emulation prevention bytes out and nothing else, whatever memory follows the NAL unit.
pub nal_unit_bitstream_parser-escape :
    (r rest : Bytes)
    → IsStopped r
    → nal_unit_bitstream_parser (escape r ++ rest) (length (escape r)) ≡ parsed r
unfolding nal_unit_bitstream_parser
nal_unit_bitstream_parser-escape r rest h = loop-escape (length (escape r)) r rest h (omega arith)

-- A NAL unit whose last byte is 0, at the end of its memory, makes the constructor read behind
-- that memory, whatever stands in front of the 0.
pub nal_unit_bitstream_parser-overread :
    (s : Bytes) → nal_unit_bitstream_parser (s ++ (0 ∷ [])) (length (s ++ (0 ∷ []))) ≡ overread
unfolding nal_unit_bitstream_parser
nal_unit_bitstream_parser-overread s =
    ap (λ n. parser_loop n (s ++ (0 ∷ [])) n) (length-one_more s)
    ∙ loop-overread (length s) s (omega arith)

emplace-ne-stuck : (bytes : Bytes) (p : Parsed) → p ≢ stuck → emplace bytes p ≢ stuck
unfolding emplace
emplace-ne-stuck bytes overread h = λ e. cc
emplace-ne-stuck bytes stuck h = h
emplace-ne-stuck bytes (parsed out) h = λ e. cc

round-ne-stuck :
    (fuel : ℕ)
    → ((s : Bytes) (left : ℕ) → left ≤ fuel → parser_loop fuel s left ≢ stuck)
    → (test : Option Bool) (s : Bytes) (left : ℕ) → left ≤ fuel
    → round (λ s' left'. parser_loop fuel s' left') test s (suc left) ≢ stuck
unfolding round
round-ne-stuck fuel again none s left h = λ e. cc
round-ne-stuck fuel again (some true) s left h =
    emplace-ne-stuck (0 ∷ 0 ∷ []) _ (again (drop 3 s) (suc left - 3) (omega arith))
round-ne-stuck fuel again (some false) s left h =
    emplace-ne-stuck (take 1 s) _ (again (drop 1 s) (suc left - 1) (omega arith))

parser_loop-ne-stuck :
    (fuel : ℕ) (s : Bytes) (left : ℕ) → left ≤ fuel → parser_loop fuel s left ≢ stuck
unfolding parser_loop
parser_loop-ne-stuck fuel s zero h = λ e. cc
parser_loop-ne-stuck zero s (suc left) h = absurd (omega arith)
parser_loop-ne-stuck (suc fuel) s (suc left) h =
    round-ne-stuck fuel (parser_loop-ne-stuck fuel) (is_prevention s) s left (omega arith)

-- The constructor ends on every memory and every length.
pub nal_unit_bitstream_parser-ne-stuck :
    (memory : Bytes) (length : ℕ) → nal_unit_bitstream_parser memory length ≢ stuck
unfolding nal_unit_bitstream_parser
nal_unit_bitstream_parser-ne-stuck memory length =
    parser_loop-ne-stuck length memory length (omega arith)
