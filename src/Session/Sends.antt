-- ===== src/Session/Sends.antt =====
-- What a call of the session sends, message by message.
use media_engine.Base.{
  ℕ, refl, ap, Bool, true, false, some, List, [], append_assoc, arith, le→ltb, length, ◌≤◌, ◌≡◌,
  ◌∙◌, ◌∷◌, ◌++◌, ◌==◌,
}
use media_engine.Base.Bytes.{Bytes}
use media_engine.Base.Texts.{codes}
use media_engine.Amf.Encode.{
  encode, encode_number, encode_string, start, write_int8, write_int16, write_int32,
}
use media_engine.Amf.Document.{Properties, encode_document}
use media_engine.Rtmp.ExportChunk.{
  MuxMessageHeader, ExportChunk, Exported, exported, export_stream_data,
}
use media_engine.Rtmp.ExportChunk.Buffer.{export-written}
use media_engine.Rtmp.Wire.Ordering.{Sent, export_each, export_each_next}
use media_engine.Session.{
  RtmpStream, Run, returns, Action, bind, ◌&then◌, client_id, peer_bandwidth,
  default_acknowledgement_size,
}
use media_engine.Session.Send.{
  send_data, send_exported, send_message_packet, new_message_header, send_user_control_message,
  send_window_acknowledgement_size, send_set_peer_bandwidth, send_stream_begin, send_amf_command,
  connect_result, on_fc_publish, create_stream_result, on_status, status_object,
}
use media_engine.Session.Handshaking.{joined}

-- The size of a document: something, and within the 2048 bytes.
abbrev pub Fits : Properties → Type 0
Fits document = (1 ≤ length (encode_document document)) × (length (encode_document document) ≤ 2048)

abbrev pub start_status : Properties
start_status =
    on_status (codes "status") (codes "NetStream.Publish.Start") (codes "Publishing") client_id

pub replies_fit :
    (transaction_id object_encoding : ℕ)
    → Fits (connect_result transaction_id object_encoding)
      × Fits (on_fc_publish client_id)
      × Fits (create_stream_result transaction_id)
      × Fits start_status
unfolding encode_document connect_result on_fc_publish create_stream_result on_status status_object
    encode encode_number encode_string start write_int8 write_int16 write_int32
replies_fit transaction_id object_encoding = (
  (omega arith, omega arith),
  (omega arith, omega arith),
  (omega arith, omega arith),
  (omega arith, omega arith),
)

-- The state when the exporter and what has been sent have changed.
abbrev pub behind : RtmpStream → ExportChunk → List Bytes → RtmpStream
behind st c pieces = record st { export_chunk = c; sent = st.sent ++ pieces }

-- The run returns true, and all that it has changed of `st` is that it has sent the messages: its
-- pieces are, one behind the other, the bytes that the exporter makes of them.
abbrev pub Sends : List Sent → RtmpStream → Run Bool → Type 0
Sends ms st r =
    (c : ExportChunk) × (pieces : List Bytes) × (r ≡ returns true (behind st c pieces))
    × (export_each st.export_chunk ms ≡ some (joined pieces))

-- One message, and what the exporter is afterwards.
abbrev pub SendsOne : MuxMessageHeader → Bytes → RtmpStream → Run Bool → Type 0
SendsOne m body st r =
    (bytes : Bytes) × (r
      ≡ returns true (behind st (export_stream_data st.export_chunk m body).0 (bytes ∷ [])))
    × ((export_stream_data st.export_chunk m body).1 ≡ exported bytes)

exported_lem :
    (c : ExportChunk) (e : Exported) (bytes : Bytes) (st : RtmpStream)
    → e ≡ exported bytes
    → send_exported (c, e) st ≡ returns true (behind st c (bytes ∷ []))
unfolding send_exported send_data
exported_lem c e bytes st h = rw h refl

packet-SendsOne :
    (m : MuxMessageHeader) (body : Bytes) (st : RtmpStream)
    → 2 ≤ m.chunk_stream_id
    → m.body_size ≡ length body
    → SendsOne m body st (send_message_packet m body st)
unfolding send_message_packet
packet-SendsOne m body st id size =
    let r = export_stream_data st.export_chunk m body in
    let made = export-written st.export_chunk m body id size in
    (_, exported_lem r.0 r.1 _ st made, made)

-- A call whose message is sent, and one behind it.
pub then-Sends :
    (m : MuxMessageHeader) (body : Bytes) (ms : List Sent) (act k : Action Bool) (st : RtmpStream)
    → SendsOne m body st (act st)
    → ((c : ExportChunk) (pieces : List Bytes)
        → Sends ms (behind st c pieces) (k (behind st c pieces)))
    → Sends ((m, body) ∷ ms) st ((act &then k) st)
unfolding bind joined
then-Sends m body ms act k st (bytes, first, made) others =
    let c₁ = (export_stream_data st.export_chunk m body).0 in
    let (c, pieces, second, rest) = others c₁ (bytes ∷ []) in
    (
      c,
      bytes ∷ pieces,
      rw first (
          second
          ∙ ap (λ sent. returns true (record st { export_chunk = c; sent = sent }))
              (append_assoc st.sent (bytes ∷ []) pieces)),
      export_each_next st.export_chunk m body ms bytes (joined pieces) made rest,
    )

pub last-Sends :
    (m : MuxMessageHeader) (body : Bytes) (st : RtmpStream) (r : Run Bool)
    → SendsOne m body st r
    → Sends ((m, body) ∷ []) st r
unfolding joined export_each
last-Sends m body st r (bytes, run, made) =
    (_, bytes ∷ [], run, export_each_next st.export_chunk m body [] bytes [] made refl)

-- An AMF0 command on a chunk stream and a message stream.
abbrev pub command : ℕ → ℕ → Properties → Sent
command chunk_id stream document = (
  new_message_header chunk_id 20 stream (length (encode_document document)),
  encode_document document,
)

pub command-SendsOne :
    (chunk_id stream : ℕ) (document : Properties) (st : RtmpStream)
    → 2 ≤ chunk_id
    → Fits document
    → SendsOne
        (command chunk_id stream document).0
        (command chunk_id stream document).1
        st
        (send_amf_command (new_message_header chunk_id 20 stream 0) document st)
unfolding send_amf_command
command-SendsOne chunk_id stream document st id (some_bytes, fits) =
    let body = encode_document document in
    let nonempty : (length body == 0) ≡ false = ground arith in
    rw (le→ltb 2048 (length body) fits, nonempty)
      (packet-SendsOne (new_message_header chunk_id 20 stream (length body)) body st id refl)

-- The control messages, on chunk stream 2.
abbrev pub window_size : ℕ → Sent
window_size stream = (new_message_header 2 5 stream 4, write_int32 default_acknowledgement_size)

abbrev pub bandwidth : ℕ → Sent
bandwidth stream = (new_message_header 2 6 stream 5, write_int32 peer_bandwidth ++ write_int8 2)

abbrev pub stream_begin : ℕ → Sent
stream_begin stream = (new_message_header 2 4 0 6, write_int16 0 ++ write_int32 stream)

pub window-SendsOne :
    (st : RtmpStream)
    → SendsOne
        (window_size st.rtmp_stream_id).0
        (window_size st.rtmp_stream_id).1
        st
        (send_window_acknowledgement_size default_acknowledgement_size st)
unfolding send_window_acknowledgement_size write_int32
window-SendsOne st =
    packet-SendsOne (window_size st.rtmp_stream_id).0 (window_size st.rtmp_stream_id).1 st
      (omega arith) refl

pub bandwidth-SendsOne :
    (st : RtmpStream)
    → SendsOne
        (bandwidth st.rtmp_stream_id).0
        (bandwidth st.rtmp_stream_id).1
        st
        (send_set_peer_bandwidth peer_bandwidth st)
unfolding send_set_peer_bandwidth write_int32 write_int8
bandwidth-SendsOne st =
    packet-SendsOne (bandwidth st.rtmp_stream_id).0 (bandwidth st.rtmp_stream_id).1 st (omega arith)
      refl

pub stream_begin-SendsOne :
    (st : RtmpStream)
    → SendsOne
        (stream_begin st.rtmp_stream_id).0
        (stream_begin st.rtmp_stream_id).1
        st
        (send_stream_begin st)
unfolding send_stream_begin send_user_control_message write_int32 write_int16
stream_begin-SendsOne st =
    packet-SendsOne (stream_begin st.rtmp_stream_id).0 (stream_begin st.rtmp_stream_id).1 st
      (omega arith) refl
