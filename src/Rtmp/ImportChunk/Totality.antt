-- ===== src/Rtmp/ImportChunk/Totality.antt =====
-- `Import` on any input.
use media_engine.Base.{
  ℕ, zero, suc, min, refl, inl, inr, Bool, true, false, Option, none, some, List, [], arith, ltb,
  leb, le→ltb, leb→le, Bool-cases, Option-cases, length, take, drop, length-drop, ◌+◌, ◌-◌, ◌≤◌,
  ◌<◌, ◌≡◌, ◌∷◌, ◌++◌, ◌==◌,
}
use media_engine.Base.Bytes.{Bytes}
use media_engine.Rtmp.Header.{ChunkType, t0, t1, t2, t3, ChunkHeader, Message, Completed}
use media_engine.Rtmp.ChunkParser.{
  ChunkMap, find, assign, ChunkParser, ParseStatus, ParseReturn, reset, basic_header,
  message_header, extended_timestamp,
}
use media_engine.Rtmp.ChunkParser.Totality.{Ready, IsReady, Returns, Exact-at, parse-Returns}
use media_engine.Rtmp.ImportChunk.{
  Outcome, ok, refused, crash, stuck, skip_header, finalize_blocks, deliver, finalize_message,
  calculate_for_type_3_header, process_with, allow_first, complete, rtmp_max_packet_size,
  process_chunk_header, expected_header, ImportChunk, ImportReturn, import_payload, import_parsed,
  import,
}

-- An outcome that is a value or a refusal.
abbrev Regular {ℓ} : {A : Type ℓ} → Outcome A → Type 0
Regular (ok a) = Unit
Regular refused = Unit
Regular crash = ⊥
Regular stuck = ⊥

-- A header skipped leaves no more announced than there is.
abbrev Enters : Outcome (Bytes × ℕ) → ℕ → Type 0
Enters (ok (cur, n)) left = (n ≤ length cur) × (n ≤ left)
Enters refused left = Unit
Enters crash left = ⊥
Enters stuck left = ⊥

skip_header-Enters :
    (expected : Bytes) (between : ℕ) (first : Bool) (current : Bytes) (left : ℕ)
    → left ≤ length current
    → Enters (skip_header expected between first current left) left
unfolding skip_header
skip_header-Enters expected between true current left h = (h, omega arith)
skip_header-Enters expected between false current left h =
    ground (arith, length-drop between current)

after_skip :
    (fuel c between : ℕ) (expected out : Bytes) (left : ℕ) (r : Outcome (Bytes × ℕ))
    → ((cur : Bytes) (n : ℕ)
        → n ≤ length cur
        → n ≤ left
        → Regular (elim (ltb (length cur) (min c n)) [
          | true ↦ crash
          | false ↦
              finalize_blocks fuel c expected between false
                (drop (min c n) cur)
                (n - min c n)
                (out ++ take (min c n) cur)
        ]))
    → Enters r left
    → Regular (elim r [
      | refused ↦ refused
      | crash ↦ crash
      | stuck ↦ stuck
      | ok (cur, n) ↦ elim (ltb (length cur) (min c n)) [
        | true ↦ crash
        | false ↦
            finalize_blocks fuel c expected between false
              (drop (min c n) cur)
              (n - min c n)
              (out ++ take (min c n) cur)
      ]
    ])
after_skip fuel c between expected out left (ok (cur, n)) k e = k cur n e.0 e.1
after_skip fuel c between expected out left refused k e = tt
after_skip fuel c between expected out left crash k e = absurd e
after_skip fuel c between expected out left stuck k e = absurd e

positive : (n : ℕ) → (n == 0) ≡ false → 0 < n
positive n h = ground arith

finalize_blocks-Regular :
    (fuel c : ℕ) (expected : Bytes) (between : ℕ) (first : Bool) (current : Bytes) (left : ℕ)
    (out : Bytes)
    → 0 < c
    → left < fuel
    → left ≤ length current
    → Regular (finalize_blocks fuel c expected between first current left out)
unfolding finalize_blocks
finalize_blocks-Regular zero c expected between first current left out hc hf hl = elim hf [ ]
finalize_blocks-Regular (suc fuel) c expected between first current left out hc hf hl =
    elim (Bool-cases (left == 0)) [
      | inl done ↦ rw (done, finalize_blocks) tt
      | inr more ↦
          rw (more, finalize_blocks)
            (after_skip fuel c between expected out left
              (skip_header expected between first current left)
              (λ cur n hn hk. rw (le→ltb (length cur) (min c n) (omega arith)) (
                finalize_blocks-Regular fuel c expected between false (drop (min c n) cur)
                  (n - min c n) (out ++ take (min c n) cur) hc (omega (arith, positive left more))
                  (omega (arith, length-drop (min c n) cur))))
              (skip_header-Enters expected between first current left hl))
    ]

deliver-Regular : (h : ChunkHeader) (r : Outcome Bytes) → Regular r → Regular (deliver h r)
unfolding deliver
deliver-Regular h (ok payload) g = ground arith
deliver-Regular h refused g = tt
deliver-Regular h crash g = absurd g
deliver-Regular h stuck g = absurd g

finalize_message-Regular :
    (c : ℕ) (h : ChunkHeader) (s : Bytes)
    → 0 < c
    → h.expected_payload_size ≤ length s
    → Regular (finalize_message c h s)
unfolding finalize_message
finalize_message-Regular c h s hc arrived = deliver-Regular h _ (
    finalize_blocks-Regular (suc h.expected_payload_size) c _ _ true s h.expected_payload_size [] hc
      (omega arith) arrived)

calculate-Regular : (c : ℕ) (h : ChunkHeader) → 0 < c → Regular (calculate_for_type_3_header c h)
unfolding calculate_for_type_3_header
calculate-Regular c h hc =
    ground (arith, Option-cases (expected_header h.basic_header_size h.stream_id))

process_with-Regular :
    (c : ℕ) (h : ChunkHeader) (last : Option ChunkHeader) (prev : Completed)
    → 0 < c
    → Regular (process_with c h last prev)
unfolding process_with
process_with-Regular c h last prev hc =
    elim (Bool-cases (ltb rtmp_max_packet_size (complete h last prev).length)) [
      | inl large ↦ rw large tt
      | inr small ↦ rw small (calculate-Regular c _ hc)
    ]

allow_first-Regular :
    (type : ChunkType) (r : Outcome ChunkHeader) → Regular r → Regular (allow_first type r)
unfolding allow_first
allow_first-Regular t0 r g = g
allow_first-Regular t1 r g = tt
allow_first-Regular t2 r g = tt
allow_first-Regular t3 r g = tt

process_chunk_header-Regular :
    (c : ℕ) (h : ChunkHeader) (last : Option ChunkHeader)
    → 0 < c
    → Regular (process_chunk_header c h last)
unfolding process_chunk_header
process_chunk_header-Regular c h none hc =
    allow_first-Regular h.format_type _ (process_with-Regular c h none h.completed hc)
process_chunk_header-Regular c h (some last) hc =
    process_with-Regular c h (some last) last.completed hc

-- An importer on which `Import` may be called.
abbrev pub CanImport : ImportChunk → Type 0
CanImport c = (0 < c.chunk_size) × IsReady c.parser

-- What `Import` may do with `total` bytes: take no more than there are, or report an error; either
-- way it can be called again.
abbrev pub Imported : ℕ → ImportChunk × ImportReturn → Type 0
Imported total (c, ImportReturn.used n done) = CanImport c × (n ≤ total)
Imported total (c, ImportReturn.error) = CanImport c
Imported total (c, ImportReturn.crash) = ⊥
Imported total (c, ImportReturn.stuck) = ⊥

after_finalize :
    (total parsed : ℕ) (c : ImportChunk) (h : ChunkHeader) (r : Outcome Message)
    → CanImport c
    → parsed + h.expected_payload_size ≤ total
    → Regular r
    → Imported total (elim r [
      | refused ↦ (c, ImportReturn.error)
      | crash ↦ (c, ImportReturn.crash)
      | stuck ↦ (c, ImportReturn.stuck)
      | ok m ↦ (
        record c { message_queue = c.message_queue ++ (m ∷ []); parser = reset },
        ImportReturn.used (parsed + h.expected_payload_size) true,
      )
    ])
after_finalize total parsed c h (ok m) can fits g = ((can.0, refl), fits)
after_finalize total parsed c h refused can fits g = can
after_finalize total parsed c h crash can fits g = absurd g
after_finalize total parsed c h stuck can fits g = absurd g

import_payload-Imported :
    (total parsed : ℕ) (c : ImportChunk) (h : ChunkHeader) (s : Bytes)
    → CanImport c
    → parsed + length s ≤ total
    → Imported total (import_payload c parsed h s)
unfolding import_payload
import_payload-Imported total parsed c h s can fits =
    elim (Bool-cases (leb h.expected_payload_size (length s))) [
      | inl arrived ↦ rw arrived (
          after_finalize total parsed c h (finalize_message c.chunk_size h s) can
            (omega (arith, leb→le _ _ arrived))
            (finalize_message-Regular c.chunk_size h s can.0 (leb→le _ _ arrived)))
      | inr waits ↦ rw waits (can, omega arith)
    ]

after_process :
    (total parsed : ℕ) (c c₁ : ImportChunk) (p : ChunkParser) (s : Bytes) (r : Outcome ChunkHeader)
    → CanImport c₁
    → 0 < c.chunk_size
    → p.status ≡ ParseStatus.completed
    → parsed + length s ≤ total
    → Regular r
    → Imported total (elim r [
      | refused ↦ (c₁, ImportReturn.error)
      | crash ↦ (c₁, ImportReturn.crash)
      | stuck ↦ (c₁, ImportReturn.stuck)
      | ok h' ↦
          import_payload
            (record c {
              chunk_map = assign h'.stream_id h' c.chunk_map;
              parser = record p { current = some h' };
            })
            parsed
            h'
            s
    ])
after_process total parsed c c₁ p s (ok h') can hc done fits g =
    import_payload-Imported total parsed _ h' s (hc, rw done refl) fits
after_process total parsed c c₁ p s refused can hc done fits g = can
after_process total parsed c c₁ p s crash can hc done fits g = absurd g
after_process total parsed c c₁ p s stuck can hc done fits g = absurd g

-- The parser has returned, by its status.
import_used-Imported :
    (total : ℕ) (c : ImportChunk) (st : ParseStatus) (current : Option ChunkHeader) (parsed : ℕ)
    (s : Bytes)
    → 0 < c.chunk_size
    → Ready st current 0 0
    → parsed ≤ total
    → (st ≡ ParseStatus.completed → length s + parsed ≡ total)
    → Imported total
        (import_parsed c (ParseReturn.used parsed (record { current = current; status = st }) s))
unfolding import_parsed
import_used-Imported total c basic_header current parsed s hc r le e = ((hc, r), le)
import_used-Imported total c message_header current parsed s hc r le e = ((hc, r), le)
import_used-Imported total c extended_timestamp current parsed s hc r le e = ((hc, r), le)
import_used-Imported total c ParseStatus.completed none parsed s hc r le e = absurd r
import_used-Imported total c ParseStatus.completed (some h) parsed s hc r le e =
    let p : ChunkParser = record { current = some h; status = ParseStatus.completed } in
    after_process total parsed c (record c { parser = p }) p s
      (process_chunk_header c.chunk_size h (find h.stream_id c.chunk_map)) (hc, r) hc refl
      (omega (arith, e refl))
      (process_chunk_header-Regular c.chunk_size h (find h.stream_id c.chunk_map) hc)

import_parsed-Imported :
    (c : ImportChunk) (s : Bytes) (r : ParseReturn)
    → 0 < c.chunk_size
    → Returns s 0 r
    → Imported (length s) (import_parsed c r)
import_parsed-Imported c s (ParseReturn.used parsed p s') hc (ready, bound, exact) =
    import_used-Imported (length s) c p.status p.current parsed s' hc ready (omega arith)
      (λ d. omega (arith, Exact-at p.status _ _ exact d))
import_parsed-Imported c s (ParseReturn.error p) hc g = absurd g
import_parsed-Imported c s ParseReturn.crash hc g = absurd g
import_parsed-Imported c s ParseReturn.stuck hc g = absurd g

-- With the header complete, the payload is tried.
resume :
    (c : ImportChunk) (s : Bytes) (last : Option ChunkHeader)
    → CanImport c
    → Imported
        (length s)
        (elim last [ none ↦ (c, ImportReturn.error) | some l ↦ import_payload c 0 l s ])
resume c s none can = can
resume c s (some l) can = import_payload-Imported (length s) 0 c l s can (omega arith)

import_by_status :
    (map : ChunkMap) (queue : List Message) (n : ℕ) (st : ParseStatus)
    (current : Option ChunkHeader) (s : Bytes)
    → 0 < n
    → Ready st current 0 0
    → Imported (length s) (
        import
          (record {
            chunk_map = map;
            message_queue = queue;
            chunk_size = n;
            parser = record { current = current; status = st };
          })
          s)
unfolding import
import_by_status map queue n basic_header current s hn r =
    import_parsed-Imported _ s _ hn (parse-Returns map _ s r)
import_by_status map queue n message_header current s hn r =
    import_parsed-Imported _ s _ hn (parse-Returns map _ s r)
import_by_status map queue n extended_timestamp current s hn r =
    import_parsed-Imported _ s _ hn (parse-Returns map _ s r)
import_by_status map queue n ParseStatus.completed none s hn r = absurd r
import_by_status map queue n ParseStatus.completed (some h) s hn r =
    resume _ s (find h.stream_id map) (hn, r)

-- With a chunk size above 0 and a ready parser, `Import` returns on every input, hostile or cut
-- anywhere: it divides by no 0, reads nothing behind the data and ends its loops. It takes at most
-- the bytes that it was given or reports an error, and can be called again.
pub import-Imported : (c : ImportChunk) (s : Bytes) → CanImport c → Imported (length s) (import c s)
import-Imported c s (hc, r) =
    import_by_status c.chunk_map c.message_queue c.chunk_size c.parser.status c.parser.current s hc
      r
