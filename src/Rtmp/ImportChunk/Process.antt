-- ===== src/Rtmp/ImportChunk/Process.antt =====
-- `ProcessChunkHeader` and `CalculateForType3Header` on a header that starts a message.
use media_engine.Base.{
  ℕ, zero, suc, ap, false, Option, none, some, arith, ltb, leb, le→ltb, lt→leb, ◌+◌, ◌-◌, ◌*◌, ◌/◌,
  ◌%◌, ◌^◌, ◌≤◌, ◌<◌, ◌≡◌, ◌∙◌, ◌==◌, if◌then◌else◌,
}
use media_engine.Base.Bytes.{Bytes}
use native.Mathlib.Nat.{div-add-mod, mod-eq_of_lt}
use media_engine.Rtmp.Header.{t0, Completed, ChunkHeader, extended_size, recalculate_header_size}
use media_engine.Rtmp.ImportChunk.{
  ok, complete, expected_header, calculate_for_type_3_header, process_chunk_header,
  calculate_rolled_timestamp, rtmp_max_packet_size, process_with, allow_first,
}

quotient-le : (n c : ℕ) → 0 < c → n / c ≤ n
quotient-le n zero h = elim h [ ]
quotient-le n (suc c) h = grind (arith, div-add-mod n (suc c))

-- The payload with the headers between its blocks, where the source's arithmetic does not wrap.
abbrev pub whole_size : ℕ → ChunkHeader → ℕ
whole_size c h =
    h.payload_size + (h.payload_size - 1) / c * (h.basic_header_size + extended_size h.is_extended)

mul-le : (a b k : ℕ) → b ≤ k → a * b ≤ a * k
mul-le a b k h = grind arith

module _ (c : ℕ) (h : ChunkHeader) (e : Bytes) (hc : 0 < c) (hp : 0 < h.payload_size)
    (small : h.payload_size < 2 ^ 24) (basic : h.basic_header_size ≤ 3)
    (known : expected_header h.basic_header_size h.stream_id ≡ some e) where
  whole_fits : whole_size c h < 2 ^ 32
  whole_fits = omega (
    arith,
    quotient-le (h.payload_size - 1) c hc,
    mul-le ((h.payload_size - 1) / c) (h.basic_header_size + extended_size h.is_extended) 7
        (ground arith),
  )

  pub calculate_lem :
      calculate_for_type_3_header c h
      ≡ ok (record h { expected_type_3_header = e; expected_payload_size = whole_size c h })
  unfolding calculate_for_type_3_header
  calculate_lem =
      let size : (h.payload_size + 2 ^ 32 - 1) % 2 ^ 32 ≡ h.payload_size - 1 = omega arith in
      let divides : (c == 0) ≡ false = ground arith in
      let positive : leb (2 ^ 31) ((h.payload_size - 1) / c) ≡ false =
        lt→leb _ _ (omega (arith, quotient-le (h.payload_size - 1) c hc)) in
      let whole : whole_size c h % 2 ^ 32 ≡ whole_size c h = mod-eq_of_lt whole_fits in
      rw (known, calculate_for_type_3_header, divides, size, positive, whole)

-- The accumulated header of a message that starts with a header of type 0.
abbrev pub start_timestamp : ChunkHeader → ℕ
start_timestamp h = if h.is_extended then h.extended_timestamp else h.header.timestamp

abbrev pub message_timestamp : Option ChunkHeader → ℕ → ℕ
message_timestamp none ts = ts
message_timestamp (some l) ts = calculate_rolled_timestamp l.completed.timestamp ts

abbrev pub start_completed : ChunkHeader → Option ChunkHeader → Completed
start_completed h last = record {
  timestamp_delta = 0;
  timestamp = message_timestamp last (start_timestamp h);
  length = h.header.length;
  type_id = h.header.type_id;
  stream_id = h.header.stream_id;
}

pub complete_t0 :
    (h : ChunkHeader) (last : Option ChunkHeader) (prev : Completed)
    → h.format_type ≡ t0
    → complete h last prev ≡ start_completed h last
unfolding complete
complete_t0 h none prev f = rw (f, complete)
complete_t0 h (some l) prev f = rw (f, complete)

-- The header with which the wait for the payload begins.
abbrev pub started : ℕ → ChunkHeader → Option ChunkHeader → Bytes → ChunkHeader
started c h last e =
    let h₁ = recalculate_header_size (record h {
      completed = start_completed h last;
      message_header_size = 21;
      payload_size = h.header.length;
    }) in
    record h₁ { expected_type_3_header = e; expected_payload_size = whole_size c h₁ }

module _ (c : ℕ) (h : ChunkHeader) (e : Bytes) (hc : 0 < c) (hp : 0 < h.header.length)
    (small : h.header.length < 2 ^ 24) (basic : h.basic_header_size ≤ 3)
    (known : expected_header h.basic_header_size h.stream_id ≡ some e)
    (first : h.format_type ≡ t0) where
  process_with_t0 :
      (last : Option ChunkHeader) (prev : Completed)
      → process_with c h last prev ≡ ok (started c h last e)
  unfolding process_with
  process_with_t0 last prev =
      let fits : ltb rtmp_max_packet_size h.header.length ≡ false = le→ltb _ _ (omega arith) in
      let h₁ = recalculate_header_size (record h {
        completed = start_completed h last;
        message_header_size = 21;
        payload_size = h.header.length;
      }) in
      rw (complete_t0 h last prev first, fits) (calculate_lem c h₁ e hc hp small basic known)

  pub process_chunk_header_t0 :
      (last : Option ChunkHeader) → process_chunk_header c h last ≡ ok (started c h last e)
  unfolding process_chunk_header
  process_chunk_header_t0 none =
      ap (λ k. allow_first k (process_with c h none h.completed)) first
      ∙ process_with_t0 none h.completed
  process_chunk_header_t0 (some l) = process_with_t0 (some l) l.completed
