-- ===== src/Rtmp/ImportChunk/Empty.antt =====
-- What `CalculateForType3Header` and `ProcessChunkHeader` make of a message with no payload.
use media_engine.Base.{
  ℕ, bit_or, refl, ap, false, Option, none, some, [], arith, ltb, leb, le→ltb, lt→leb, ◌+◌, ◌-◌,
  ◌*◌, ◌/◌, ◌%◌, ◌^◌, ◌≤◌, ◌<◌, ◌≡◌, ◌∙◌, ◌∷◌, ◌==◌,
}
use native.Mathlib.Nat.{div-add-mod, le_refl}
use native.Mathlib.Decide.{dec_lt}
use media_engine.Rtmp.Header.{t0, Completed, ChunkHeader, extended_size, recalculate_header_size}
use media_engine.Rtmp.ImportChunk.Process.{complete_t0, start_completed}
use media_engine.Rtmp.ImportChunk.{
  ok, rtmp_max_packet_size, process_with, allow_first, process_chunk_header,
  calculate_for_type_3_header, expected_header,
}

mul_mono : (a b c d : ℕ) → a ≤ b → c ≤ d → a * c ≤ b * d
mul_mono a b c d h k = grind arith

waits_below : (c : ℕ) → 2 ≤ c → (2 ^ 32 - 1) / c < 2 ^ 31
waits_below c lo = omega (
  arith,
  div-add-mod (2 ^ 32 - 1) c,
  mul_mono ((2 ^ 32 - 1) / c) ((2 ^ 32 - 1) / c) 2 c (le_refl _) lo,
)

pub waits_above : (c : ℕ) → 2 ≤ c → c ≤ 2 ^ 16 → 65535 ≤ (2 ^ 32 - 1) / c
waits_above c lo hi =
    let remainder : (2 ^ 32 - 1) % c < c = omega arith in
    elim (dec_lt ((2 ^ 32 - 1) / c) 65535) [
      | yes small ↦ absurd (
          omega (
            arith,
            div-add-mod (2 ^ 32 - 1) c,
            remainder,
            mul_mono ((2 ^ 32 - 1) / c) 65534 c 65536 (omega arith) hi,
          ))
      | no large ↦ omega arith
    ]

module _ (c : ℕ) (h : ChunkHeader) (lo : 2 ≤ c) (ep : h.payload_size ≡ 0)
    (eb : h.basic_header_size ≡ 1) (ee : h.is_extended ≡ false) where
  abbrev pub waiting_header : ChunkHeader
  waiting_header = record h {
    expected_type_3_header = bit_or 0xc0 (h.stream_id % 64) ∷ 0 ∷ 0 ∷ 0 ∷ [];
    expected_payload_size = (2 ^ 32 - 1) / c;
  }

  known :
      expected_header h.basic_header_size h.stream_id ≡ some waiting_header.expected_type_3_header
  unfolding expected_header
  known = ap (λ k. expected_header k h.stream_id) eb

  whole :
      (h.payload_size + (2 ^ 32 - 1) / c * (h.basic_header_size + extended_size h.is_extended))
        % 2 ^ 32
      ≡ (2 ^ 32 - 1) / c
  whole =
      let between : h.basic_header_size + extended_size h.is_extended ≡ 1 = ground arith in
      rw between (omega (arith, ep, waits_below c lo))

  pub accepted : calculate_for_type_3_header c h ≡ ok waiting_header
  unfolding calculate_for_type_3_header
  accepted =
      let size : (h.payload_size + 2 ^ 32 - 1) % 2 ^ 32 ≡ 2 ^ 32 - 1 = omega arith in
      let divides : (c == 0) ≡ false = ground arith in
      let positive : leb (2 ^ 31) ((2 ^ 32 - 1) / c) ≡ false = lt→leb _ _ (waits_below c lo) in
      rw (known, calculate_for_type_3_header, divides, size, positive, whole)

-- The header with which `CalculateForType3Header` is called for a header of type 0.
abbrev pub before_type_3 : ChunkHeader → Option ChunkHeader → ChunkHeader
before_type_3 h last = recalculate_header_size (record h {
  completed = start_completed h last;
  message_header_size = 21;
  payload_size = h.header.length;
})

process_with_start :
    (c : ℕ) (h : ChunkHeader) (last : Option ChunkHeader) (prev : Completed)
    → h.format_type ≡ t0
    → h.header.length ≡ 0
    → process_with c h last prev ≡ calculate_for_type_3_header c (before_type_3 h last)
unfolding process_with
process_with_start c h last prev first empty =
    let fits : ltb rtmp_max_packet_size h.header.length ≡ false =
      le→ltb _ _ (omega (arith, empty)) in
    rw (complete_t0 h last prev first, fits) refl

pub process_start :
    (c : ℕ) (h : ChunkHeader) (last : Option ChunkHeader)
    → h.format_type ≡ t0
    → h.header.length ≡ 0
    → process_chunk_header c h last ≡ calculate_for_type_3_header c (before_type_3 h last)
unfolding process_chunk_header
process_start c h none first empty =
    ap (λ k. allow_first k (process_with c h none h.completed)) first
    ∙ process_with_start c h none h.completed first empty
process_start c h (some l) first empty = process_with_start c h (some l) l.completed first empty
