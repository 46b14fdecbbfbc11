-- ===== src/Rtmp/Wire/Ordering.antt =====
-- Several messages over one connection: the exporter writes them one behind the other, the importer
-- is called again on what it left.
use media_engine.Base.{
  ℕ, zero, suc, refl, sym, ap, true, false, Option, none, some, List, [], append-nil, append_assoc,
  arith, length, drop, All, drop-append, ◌≤◌, ◌<◌, ◌≡◌, ◌∙◌, ◌⊎◌, ◌∷◌, ◌++◌,
}
use media_engine.Base.Bytes.{Bytes}
use mathlib.Core.Path.{subst}
use media_engine.Rtmp.Header.{ChunkHeader, Message}
use media_engine.Rtmp.ChunkParser.{ChunkMap, assign}
use media_engine.Rtmp.ExportChunk.{ExportChunk, MuxMessageHeader, exported, export_stream_data}
use media_engine.Rtmp.ImportChunk.{ImportChunk, ImportReturn, used, import}
use media_engine.Rtmp.ImportChunk.Steps.{idle}
use media_engine.Rtmp.Wire.{IsSendable}
use media_engine.Rtmp.Wire.Delivery.{IsDelivered, import-export}

abbrev pub Sent : Type 0
Sent = MuxMessageHeader × Bytes

-- Of a message, what the application reads next to its timestamp.
abbrev pub Content : Type 0
Content = ℕ × ℕ × Bytes

unfoldable pub sent_contents : List Sent → List Content
sent_contents [] = []
sent_contents ((m, body) ∷ ms) = (m.type_id, m.stream_id, body) ∷ sent_contents ms

unfoldable pub received_contents : List Message → List Content
received_contents [] = []
received_contents (m ∷ ms) =
    (m.header.completed.type_id, m.header.completed.stream_id, m.payload) ∷ received_contents ms

-- `ExportStreamData` on each message; none where one gives no bytes.
unfoldable pub export_each : ExportChunk → List Sent → Option Bytes
export_each c [] = some []
export_each c ((m, body) ∷ ms) = elim ((export_stream_data c m body).1) [
  | exported bytes ↦ elim (export_each (export_stream_data c m body).0 ms) [
    | none ↦ none
    | some more ↦ some (bytes ++ more)
  ]
  | _ ↦ none
]

-- `Import` the given number of times, each on what the last one left; none where a call completes
-- no message.
unfoldable pub import_each : ℕ → ImportChunk → Bytes → Option (ImportChunk × Bytes)
import_each zero c s = some (c, s)
import_each (suc n) c s =
    let (c', r) = import c s in
    elim r [
      | used k done ↦ elim done [ true ↦ import_each n c' (drop k s) | false ↦ none ]
      | _ ↦ none
    ]

-- The exporter keeps its settings.
export-settings :
    (c : ExportChunk) (m : MuxMessageHeader) (body : Bytes)
    → ((export_stream_data c m body).0.chunk_size ≡ c.chunk_size)
      × ((export_stream_data c m body).0.compress_header ≡ c.compress_header)
unfolding export_stream_data
export-settings c m body = (ground arith, ground arith)

-- A message that one chunk stream carries to the importer.
abbrev pub IsCarried : ℕ → Sent → Type 0
IsCarried n (m, body) = IsSendable m body × ((m.chunk_stream_id < 320) ⊎ (length body ≤ n))

-- The bytes `ms` are written as, and what the importer makes of them: all calls complete, and the
-- queue grows by messages with the contents of `ms`.
abbrev pub Queues : ℕ → List Sent → Bytes → Bytes → ChunkMap → List Message → Type 0
Queues n ms bytes rest map queue =
    (map' : ChunkMap) × (arrived : List Message) × (import_each (length ms) (idle map queue n)
        (bytes ++ rest)
      ≡ some (idle map' (queue ++ arrived) n, rest))
    × (received_contents arrived ≡ sent_contents ms)

abbrev pub Arrives : ExportChunk → ℕ → List Sent → Type 0
Arrives c n ms =
    (bytes : Bytes) × (export_each c ms ≡ some bytes)
    × ((rest : Bytes) (map : ChunkMap) (queue : List Message) → Queues n ms bytes rest map queue)

exported_injective : (a b : Bytes) → exported a ≡ exported b → a ≡ b
exported_injective a b e = cc

content_cons :
    (t t' s s' : ℕ) (body : Bytes) (xs ys : List Content)
    → t ≡ t'
    → s ≡ s'
    → xs ≡ ys
    → (t, s, body) ∷ xs ≡ (t', s', body) ∷ ys
content_cons t t' s s' body xs ys p q r = cc

import_each_next :
    (n k : ℕ) (c c' : ImportChunk) (s : Bytes) (result : Option (ImportChunk × Bytes))
    → import c s ≡ (c', used k true)
    → import_each n c' (drop k s) ≡ result
    → import_each (suc n) c s ≡ result
unfolding import_each
import_each_next n k c c' s result first others =
    let kept : (import c s).0 ≡ c' = ap (λ (r : ImportChunk × ImportReturn). r.0) first in
    let status : (import c s).1 ≡ used k true =
      ap (λ (r : ImportChunk × ImportReturn). r.1) first in
    rw (import_each, status, kept) others

pub export_each_next :
    (c : ExportChunk) (m : MuxMessageHeader) (body : Bytes) (ms : List Sent) (bytes more : Bytes)
    → (export_stream_data c m body).1 ≡ exported bytes
    → export_each (export_stream_data c m body).0 ms ≡ some more
    → export_each c ((m, body) ∷ ms) ≡ some (bytes ++ more)
unfolding export_each
export_each_next c m body ms bytes more first others = rw (export_each, first, others) refl

-- The first of the messages, and then the others.
Queues-first :
    (c : ExportChunk) (m : MuxMessageHeader) (body : Bytes) (ms : List Sent) (rest : Bytes)
    (map : ChunkMap) (queue : List Message) (bytes more : Bytes) (header : ChunkHeader)
    → IsDelivered c m body (more ++ rest) map queue bytes header
    → ((map : ChunkMap) (queue : List Message) → Queues c.chunk_size ms more rest map queue)
    → Queues c.chunk_size ((m, body) ∷ ms) (bytes ++ more) rest map queue
unfolding received_contents sent_contents
Queues-first c m body ms rest map queue bytes more header d others =
    let message : Message = record { header = header; payload = body } in
    let (last, arrived, read, kept) =
      others (assign m.chunk_stream_id header map) (queue ++ (message ∷ [])) in
    (
      last,
      message ∷ arrived,
      rw (append_assoc bytes more rest) (
          import_each_next (length ms) (length bytes) _ _ (bytes ++ (more ++ rest)) _ d.imported (
            rw (drop-append bytes (more ++ rest)) (
              read
              ∙ ap (λ q. some (idle last q c.chunk_size, rest))
                  (append_assoc queue (message ∷ []) arrived)))),
      content_cons _ _ _ _ body _ _ d.type_kept d.stream_kept kept,
    )

first_and :
    (c : ExportChunk) (m : MuxMessageHeader) (body : Bytes) (ms : List Sent)
    → c.compress_header ≡ false
    → 0 < c.chunk_size
    → IsCarried c.chunk_size (m, body)
    → Arrives (export_stream_data c m body).0 c.chunk_size ms
    → Arrives c c.chunk_size ((m, body) ∷ ms)
first_and c m body ms plain hc (sendable, fits) (more, written, others) =
    let (bytes, _, wrote, _) = import-export c m body [] [] [] plain sendable hc fits in
    (
      bytes ++ more,
      export_each_next c m body ms bytes more wrote written,
      λ rest map queue.
          let (bytes', header, wrote', d) =
            import-export c m body (more ++ rest) map queue plain sendable hc fits in
          let same : bytes' ≡ bytes = exported_injective bytes' bytes (sym wrote' ∙ wrote) in
          Queues-first c m body ms rest map queue bytes more header
            (subst (λ b. IsDelivered c m body (more ++ rest) map queue b header) same d)
            (others rest),
    )

export_each-Arrives :
    (c : ExportChunk) (n : ℕ) (ms : List Sent)
    → c.compress_header ≡ false
    → c.chunk_size ≡ n
    → 0 < n
    → All (IsCarried n) ms
    → Arrives c n ms
unfolding export_each import_each received_contents sent_contents
export_each-Arrives c n [] plain same hn unit = (
  [],
  refl,
  λ rest map queue. (map, [], ap (λ q. some (idle map q n, rest)) (sym (append-nil queue)), refl),
)
export_each-Arrives c n ((m, body) ∷ ms) plain same hn (carried, others) =
    let (size_kept, setting_kept) = export-settings c m body in
    let c₁ = (export_stream_data c m body).0 in
    subst (λ k. 0 < k → IsCarried k (m, body) → Arrives c₁ k ms → Arrives c k ((m, body) ∷ ms)) same
      (first_and c m body ms plain) hn carried
      (export_each-Arrives c₁ n ms (setting_kept ∙ plain) (size_kept ∙ same) hn others)

-- Without header compression and with a chunk size above 0 on both sides, any list of messages goes
-- through exporter and importer whole and in order, where each fits the wire, has a body that is
-- not empty, and is on a chunk stream below 320 or fits one chunk. The exporter writes all of them;
-- as many calls of the importer, idle at first, as there are messages complete one message each and
-- leave exactly what follows the bytes; and behind what was queued before, the queue gets messages
-- of the same types, stream ids and bodies in the order they were sent. Their timestamps are not
-- compared.
pub import_each-export_each :
    (c : ExportChunk) (ms : List Sent) (rest : Bytes) (map : ChunkMap) (queue : List Message)
    → c.compress_header ≡ false
    → 0 < c.chunk_size
    → All (IsCarried c.chunk_size) ms
    → (bytes : Bytes) × (export_each c ms ≡ some bytes)
      × Queues c.chunk_size ms bytes rest map queue
import_each-export_each c ms rest map queue plain hc carried =
    let (bytes, written, others) = export_each-Arrives c c.chunk_size ms plain refl hc carried in
    (bytes, written, others rest map queue)
