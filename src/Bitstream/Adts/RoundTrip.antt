-- ===== src/Bitstream/Adts/RoundTrip.antt =====
-- ADTS frames that `ConvertLatmToAdts` makes and `ConvertAdtsToLatm` takes apart.
use media_engine.Base.{
  ℕ, zero, suc, bit_or, refl, sym, ap, false, some, List, [], append_assoc, arith, ltb, le→ltb,
  length, take, drop, All, length-append, take-append, drop-append, ◌+◌, ◌-◌, ◌*◌, ◌/◌, ◌%◌, ◌^◌,
  ◌≤◌, ◌<◌, ◌≡◌, ◌∙◌, ◌||◌, ◌∷◌, ◌++◌,
}
use media_engine.Base.Bytes.{Bytes}
use media_engine.Base.Masks.{agree, agree_at, or_none}
use media_engine.Bitstream.BitWriter.{write, write_loop, or_at, get_data, get_data_size}
use media_engine.Bitstream.Aac.{AacSpecificConfig, parse_aac_config}
use media_engine.Bitstream.Converter.{raw}
use media_engine.Bitstream.Adts.{
  get_aac_profile, make_adts_header, config_or, header_for, convert_latm_to_adts, latm, get_bits,
  frame_sizes, add_packet, adts_loop, convert_adts_to_latm,
}

-- The fourth byte of a header, with two bits of the channels and two of the length.
unfoldable fourth : ℕ → ℕ → ℕ
fourth channels high =
    bit_or (bit_or (bit_or (bit_or (bit_or (bit_or 0 (channels * 64)) 0) 0) 0) 0) high

fourth_table : (v : ℕ) → v < 16 → get_bits (fourth (v / 4) (v % 4)) 0 2 ≡ v % 4
fourth_table = agree_at _ (λ v. v % 4) 16 (unfold agree fourth in refl)

fourth_length :
    (channels high : ℕ) → channels < 4 → high < 4 → get_bits (fourth channels high) 0 2 ≡ high
fourth_length channels high hc hh =
    let v = channels * 4 + high in
    let first : v / 4 ≡ channels = omega arith in
    let second : v % 4 ≡ high = omega arith in rw (first, second) at (fourth_table v (omega arith))

sixth_length : (low : ℕ) → low < 8 → get_bits (bit_or (bit_or 0 (low * 32)) 0) 5 3 ≡ low
sixth_length =
    agree_at (λ low. get_bits (bit_or (bit_or 0 (low * 32)) 0) 5 3) (λ low. low) 8
      (unfold agree in refl)

joined : (n : ℕ) → n < 2 ^ 13 → bit_or (bit_or (n / 2048 * 2 ^ 11) (n % 2048 / 8 * 8)) (n % 8) ≡ n
joined =
    agree_at (λ n. bit_or (bit_or (n / 2048 * 2 ^ 11) (n % 2048 / 8 * 8)) (n % 8)) (λ n. n) (2 ^ 13)
      (unfold agree in refl)

-- The length as the reader puts it together, for a length of 13 bits.
read_length :
    (channels l : ℕ)
    → l < 2 ^ 13
    → bit_or
        (bit_or
          (get_bits (fourth (channels % 4) (l % 8192 / 2048)) 0 2 * 2 ^ 11)
          (bit_or 0 (l % 2048 / 8) * 8))
        (get_bits (bit_or (bit_or 0 (l % 8 * 32)) 0) 5 3)
      ≡ l
read_length channels l h =
    let whole : l % 8192 ≡ l = omega arith in
    rw
      (
        fourth_length (channels % 4) (l % 8192 / 2048) (omega arith) (omega arith),
        or_none (l % 2048 / 8) (omega arith),
        sixth_length (l % 8) (omega arith),
        whole,
      )
      (joined l h)

frame_sizes-make_adts_header :
    (profile rate channels n : ℕ) (s : Bytes)
    → n + 7 < 2 ^ 13
    → frame_sizes (make_adts_header profile rate channels (n % 2 ^ 16) ++ s) ≡ some (7, n + 7)
unfolding frame_sizes make_adts_header write write_loop or_at get_data get_data_size fourth
frame_sizes-make_adts_header profile rate channels n s h =
    let l = (n % 2 ^ 16 + 7) % 2 ^ 16 in
    let same : l ≡ n + 7 = omega arith in
    ap (λ v. some (7, v)) (read_length channels l (omega arith) ∙ same)

length-make_adts_header :
    (profile rate channels n : ℕ) → length (make_adts_header profile rate channels n) ≡ 7
unfolding make_adts_header write write_loop or_at get_data get_data_size
length-make_adts_header profile rate channels n = refl

module _ (header : ℕ) (hs p s : Bytes) (header_length : length (header ∷ hs) ≡ 7) where
  whole_frame : length ((header ∷ hs) ++ p) ≡ length p + 7
  whole_frame = omega (arith, length-append (header ∷ hs) p)

  behind_header : drop 7 ((header ∷ hs) ++ (p ++ s)) ≡ p ++ s
  behind_header =
      ap (λ n. drop n ((header ∷ hs) ++ (p ++ s))) (sym header_length)
      ∙ drop-append (header ∷ hs) (p ++ s)

  behind_frame : drop (length p + 7) ((header ∷ hs) ++ (p ++ s)) ≡ s
  behind_frame =
      ap (λ n. drop n ((header ∷ hs) ++ (p ++ s))) (sym whole_frame)
      ∙ ap (drop (length ((header ∷ hs) ++ p))) (sym (append_assoc (header ∷ hs) p s))
      ∙ drop-append ((header ∷ hs) ++ p) s

  frame_inside :
      ltb (length p + 7) 7 || ltb (length ((header ∷ hs) ++ (p ++ s))) (length p + 7) ≡ false
  frame_inside =
      let total = length-append (header ∷ hs) (p ++ s) in
      let rest = length-append p s in
      rw
        (
          le→ltb (length p + 7) 7 (omega arith),
          le→ltb (length ((header ∷ hs) ++ (p ++ s))) (length p + 7)
              (omega (arith, total, rest, header_length)),
        )
        refl

  payload_of : take (length p + 7 - 7) (drop 7 ((header ∷ hs) ++ (p ++ s))) ≡ p
  payload_of =
      let size : length p + 7 - 7 ≡ length p = omega arith in
      rw (behind_header, size) (take-append p s)

  one_frame :
      (fuel : ℕ)
      → frame_sizes ((header ∷ hs) ++ (p ++ s)) ≡ some (7, length p + 7)
      → adts_loop (suc fuel) ((header ∷ hs) ++ (p ++ s))
        ≡ add_packet (length p) p (adts_loop fuel s)
  unfolding adts_loop
  one_frame fuel sizes =
      let size : length p + 7 - 7 ≡ length p = omega arith in
      rw (sizes, adts_loop, frame_inside, payload_of, behind_frame, size) refl

-- Packets as the frames that `ConvertLatmToAdts` makes of them, one behind the other.
unfoldable pub adts_frames : AacSpecificConfig → Bytes → List Bytes → Bytes
adts_frames fresh extradata [] = []
adts_frames fresh extradata (p ∷ ps) =
    (convert_latm_to_adts fresh raw p extradata).1 ++ adts_frames fresh extradata ps

unfoldable pub packets_of : List Bytes → Bytes
packets_of [] = []
packets_of (p ∷ ps) = p ++ packets_of ps

unfoldable pub lengths_of : List Bytes → List ℕ
lengths_of [] = []
lengths_of (p ∷ ps) = length p ∷ lengths_of ps

any_header :
    (hd p s : Bytes) (fuel : ℕ)
    → length hd ≡ 7
    → frame_sizes (hd ++ (p ++ s)) ≡ some (7, length p + 7)
    → adts_loop (suc fuel) ((hd ++ p) ++ s) ≡ add_packet (length p) p (adts_loop fuel s)
any_header [] p s fuel seven sizes = absurd (omega arith)
any_header (header ∷ hs) p s fuel seven sizes =
    ap (adts_loop (suc fuel)) (append_assoc (header ∷ hs) p s)
    ∙ one_frame header hs p s seven fuel sizes

-- A packet whose frame has a length of 13 bits.
abbrev pub IsShort : Bytes → Type 0
IsShort p = length p + 7 < 2 ^ 13

module _ (fresh : AacSpecificConfig) (e : ℕ) (es : Bytes) where
  first_frame :
      (p s : Bytes) (fuel : ℕ)
      → IsShort p
      → adts_loop (suc fuel) ((convert_latm_to_adts fresh raw p (e ∷ es)).1 ++ s)
        ≡ add_packet (length p) p (adts_loop fuel s)
  unfolding convert_latm_to_adts header_for
  first_frame p s fuel short =
      let c = config_or fresh (parse_aac_config (e ∷ es)) in
      let profile = get_aac_profile c in
      let rate = c.sampling_frequency_index in
      any_header (make_adts_header profile rate c.channel (length p % 2 ^ 16)) p s fuel
        (length-make_adts_header profile rate c.channel (length p % 2 ^ 16))
        (frame_sizes-make_adts_header profile rate c.channel (length p) (p ++ s) short)

  frame_pos : (p : Bytes) → 1 ≤ length (convert_latm_to_adts fresh raw p (e ∷ es)).1
  unfolding convert_latm_to_adts header_for make_adts_header write write_loop or_at get_data
      get_data_size
  frame_pos p = omega arith

  adts_loop-adts_frames :
      (ps : List Bytes) (fuel : ℕ)
      → All IsShort ps
      → length (adts_frames fresh (e ∷ es) ps) ≤ fuel
      → adts_loop fuel (adts_frames fresh (e ∷ es) ps) ≡ latm (packets_of ps) (lengths_of ps)
  unfolding adts_frames packets_of lengths_of
  adts_loop-adts_frames [] fuel h hf = unfold adts_loop in refl
  adts_loop-adts_frames (p ∷ ps) zero h hf =
      let frame = (convert_latm_to_adts fresh raw p (e ∷ es)).1 in
      absurd (omega (arith, frame_pos p, length-append frame (adts_frames fresh (e ∷ es) ps)))
  adts_loop-adts_frames (p ∷ ps) (suc fuel) h hf =
      let frame = (convert_latm_to_adts fresh raw p (e ∷ es)).1 in
      let rest = adts_frames fresh (e ∷ es) ps in
      first_frame p rest fuel h.0
      ∙ ap (add_packet (length p) p)
          (adts_loop-adts_frames ps fuel h.1 (omega (arith, frame_pos p, length-append frame rest)))
      ∙ unfold add_packet in refl

-- `ConvertAdtsToLatm` takes the frames that `ConvertLatmToAdts` makes of raw packets apart: the
-- packets one behind the other, with their lengths, whatever the configuration in the extradata.
-- The extradata is not empty, and a frame is below 8192 bytes, its header of 7 included.
pub convert_adts_to_latm-convert_latm_to_adts :
    (fresh : AacSpecificConfig) (e : ℕ) (es : Bytes) (ps : List Bytes)
    → All IsShort ps
    → convert_adts_to_latm (adts_frames fresh (e ∷ es) ps) ≡ latm (packets_of ps) (lengths_of ps)
unfolding convert_adts_to_latm
convert_adts_to_latm-convert_latm_to_adts fresh e es ps h =
    adts_loop-adts_frames fresh e es ps (length (adts_frames fresh (e ∷ es) ps)) h (omega arith)
