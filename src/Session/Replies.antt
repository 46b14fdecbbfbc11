-- ===== src/Session/Replies.antt =====
-- The replies of a session: what connect, createStream, publish and FCPublish send.
use media_engine.Base.{
  ℕ, refl, Bool, true, Option, none, some, List, [], get_elem?, ◌≤◌, ◌≡◌, ◌∷◌, ◌++◌,
}
use media_engine.Base.Bytes.{Bytes}
use media_engine.Amf.Document.{Properties}
use media_engine.Base.Texts.{codes}
use media_engine.Rtmp.Wire.Ordering.{Sent}
use media_engine.Session.{
  RtmpStream, Environment, Run, returns, crash, Action, bind, ◌&then◌, client_id, peer_bandwidth,
  default_acknowledgement_size,
}
use media_engine.Session.Send.{
  send_window_acknowledgement_size, send_set_peer_bandwidth, send_stream_begin, connect_result,
  on_fc_publish, create_stream_result, send_amf_connect_result, send_amf_create_stream_result,
  send_amf_on_status, send_amf_on_fc_publish,
}
use media_engine.Session.Tracks.{is_empty}
use media_engine.Session.Commands.{
  object_encoding_of, take_names, on_amf_connect, on_amf_create_stream, take_stream_name, string_at,
  start_publishing, on_amf_publish, on_amf_fc_publish,
}
use media_engine.Session.Sends.{
  behind, Sends, start_status, replies_fit, then-Sends, last-Sends, command, command-SendsOne,
  window_size, bandwidth, stream_begin, window-SendsOne, bandwidth-SendsOne, stream_begin-SendsOne,
}

-- The answer to `connect`.
abbrev pub connect_replies : ℕ → ℕ → ℕ → ℕ → List Sent
connect_replies chunk_id stream transaction_id encoding =
    window_size stream
    ∷ bandwidth stream
    ∷ stream_begin stream
    ∷ command chunk_id stream (connect_result transaction_id encoding)
    ∷ []

-- `connect` is answered, whatever the client said with it, by the size of the window, the
-- bandwidth, the beginning of the stream and the result with the client's transaction and encoding,
-- in this order; the names it came with are kept. `createStream` sets the stream's id to 1 and is
-- answered by its result. Each call returns true, and nothing else is sent or changed. The
-- condition is a chunk stream id that is not reserved.
pub connect-Sends :
    (chunk_id : ℕ) (document : Properties) (transaction_id : ℕ) (st : RtmpStream)
    → 2 ≤ chunk_id
    → let named = take_names (get_elem? document 2) st in
      let encoding = object_encoding_of (get_elem? document 2) in
      Sends
        (connect_replies chunk_id named.rtmp_stream_id transaction_id encoding)
        named
        (on_amf_connect chunk_id document transaction_id st)
      × Sends
          (command chunk_id 0 (create_stream_result transaction_id) ∷ [])
          (record st { rtmp_stream_id = 1 })
          (on_amf_create_stream chunk_id transaction_id st)
unfolding on_amf_connect bind send_amf_connect_result on_amf_create_stream
    send_amf_create_stream_result
connect-Sends chunk_id document transaction_id st id =
    let encoding = object_encoding_of (get_elem? document 2) in
    let named = take_names (get_elem? document 2) st in
    let stream = named.rtmp_stream_id in
    let fit = replies_fit transaction_id encoding in
    let result : Action Bool = send_amf_connect_result chunk_id transaction_id encoding in
    let begin : Action Bool = send_stream_begin &then result in
    let reply = command chunk_id stream (connect_result transaction_id encoding) in
    (
      then-Sends (window_size stream).0 (window_size stream).1
          (bandwidth stream ∷ stream_begin stream ∷ reply ∷ [])
          (send_window_acknowledgement_size default_acknowledgement_size)
          (send_set_peer_bandwidth peer_bandwidth &then begin) named (window-SendsOne named)
          (λ c₁ p₁.
            then-Sends (bandwidth stream).0 (bandwidth stream).1 (stream_begin stream ∷ reply ∷ [])
              (send_set_peer_bandwidth peer_bandwidth) begin _ (bandwidth-SendsOne _)
              (λ c₂ p₂.
                then-Sends (stream_begin stream).0 (stream_begin stream).1 (reply ∷ [])
                  send_stream_begin result _ (stream_begin-SendsOne _)
                  (λ c₃ p₃. last-Sends reply.0 reply.1 _ _ (
                    command-SendsOne chunk_id stream (connect_result transaction_id encoding) _ id
                      fit.0)))),
      last-Sends _ _ (record st { rtmp_stream_id = 1 }) _
          (command-SendsOne chunk_id 0 (create_stream_result transaction_id)
            (record st { rtmp_stream_id = 1 }) id fit.2),
    )

-- The answer to `publish`.
abbrev pub publish_replies : ℕ → ℕ → List Sent
publish_replies chunk_id stream = stream_begin stream ∷ command chunk_id stream start_status ∷ []

start_publishing-Sends :
    (chunk_id : ℕ) (st : RtmpStream)
    → 2 ≤ chunk_id
    → Sends
        (publish_replies chunk_id st.rtmp_stream_id)
        (record st { chunk_stream_id = chunk_id })
        (start_publishing chunk_id st)
unfolding start_publishing bind send_amf_on_status
start_publishing-Sends chunk_id st id =
    let stream = st.rtmp_stream_id in
    let marked : RtmpStream = record st { chunk_stream_id = chunk_id } in
    let status : Action Bool = (λ r.
      send_amf_on_status r.chunk_stream_id r.rtmp_stream_id (codes "status")
        (codes "NetStream.Publish.Start") (codes "Publishing") client_id r) in
    let reply = command chunk_id stream start_status in
    then-Sends (stream_begin stream).0 (stream_begin stream).1 (reply ∷ []) send_stream_begin status
      marked (stream_begin-SendsOne marked)
      (λ c p.
        last-Sends reply.0 reply.1 _ _
          (command-SendsOne chunk_id stream start_status _ id (replies_fit 0 0).3))

-- What a publisher's URL leads to: the end of the process where it does not parse, and else the
-- messages, on the state that the URL's stream settles.
abbrev pub ByUrl : Option Bytes → List Sent → (Bytes → RtmpStream) → Run Bool → Type 0
ByUrl none ms settled r = r ≡ crash
ByUrl (some stream) ms settled r = Sends ms (settled stream) r

-- The state with the names of a URL.
abbrev pub with_url : RtmpStream → Bytes → Bytes → RtmpStream
with_url st url stream = record st { full_url = url; stream_name = stream }

publish_by :
    (o : Option Bytes) (url : Bytes) (chunk_id : ℕ) (st : RtmpStream)
    → 2 ≤ chunk_id
    → ByUrl o
        (publish_replies chunk_id st.rtmp_stream_id)
        (λ stream. record (with_url st url stream) { chunk_stream_id = chunk_id })
        (bind
          (elim o [ none ↦ crash | some stream ↦ returns true (with_url st url stream) ])
          (λ (done : Bool). start_publishing chunk_id))
unfolding bind
publish_by none url chunk_id st id = refl
publish_by (some stream) url chunk_id st id =
    start_publishing-Sends chunk_id (with_url st url stream) id

named_behind :
    (o : Option Bytes) (url : Bytes) (ms : List Sent) (st : RtmpStream) (r : Run Bool)
    → (sends : Sends ms st r)
    → ByUrl o ms (with_url st url) (elim o [
      | none ↦ crash
      | some stream ↦ returns true (with_url (behind st sends.0 sends.1) url stream)
    ])
named_behind none url ms st r sends = refl
named_behind (some stream) url ms st r (c, pieces, run, made) = (c, pieces, refl, made)

then_named :
    (env : Environment) (name : Bytes) (ms : List Sent) (st : RtmpStream) (act : Action Bool)
    → Sends ms st (act st)
    → let url = st.tc_url ++ (0x2f ∷ name) in
      ByUrl (env.url_stream url) ms (with_url st url) ((act &then take_stream_name env name) st)
unfolding bind take_stream_name
then_named env name ms st act sends =
    let url = st.tc_url ++ (0x2f ∷ name) in
    rw (sends.2) (named_behind (env.url_stream url) url ms st (act st) sends)

-- `publish` and `FCPublish` with a name, on a stream that has none yet, both stop the process where
-- `ov::Url::Parse` returns null for the URL that `tcUrl` and the name make. On every other URL they
-- return true and keep the URL and its stream's name: `publish` sends the beginning of the stream
-- and then the status of the start, and `FCPublish` sends its own notice. Nothing else is sent or
-- changed but the chunk stream id that `publish` keeps. The condition is a chunk stream id that is
-- not reserved.
pub publish-ByUrl :
    (env : Environment) (chunk_id : ℕ) (document : Properties) (name : Bytes) (st : RtmpStream)
    → 2 ≤ chunk_id
    → is_empty st.stream_name ≡ true
    → string_at document 3 ≡ some name
    → let url = st.tc_url ++ (0x2f ∷ name) in
      ByUrl
        (env.url_stream url)
        (publish_replies chunk_id st.rtmp_stream_id)
        (λ stream. record (with_url st url stream) { chunk_stream_id = chunk_id })
        (on_amf_publish env chunk_id document st)
      × ByUrl
          (env.url_stream url)
          (command chunk_id st.rtmp_stream_id (on_fc_publish client_id) ∷ [])
          (with_url st url)
          (on_amf_fc_publish env chunk_id document st)
unfolding on_amf_publish on_amf_fc_publish take_stream_name send_amf_on_fc_publish bind
publish-ByUrl env chunk_id document name st id empty named =
    let url = st.tc_url ++ (0x2f ∷ name) in
    let stream = st.rtmp_stream_id in
    let notice = command chunk_id stream (on_fc_publish client_id) in
    (
      rw (empty, named) (publish_by (env.url_stream url) url chunk_id st id),
      rw (empty, named)
          (then_named env name (notice ∷ []) st (send_amf_on_fc_publish chunk_id client_id) (
            last-Sends notice.0 notice.1 st _ (
              command-SendsOne chunk_id stream (on_fc_publish client_id) st id
                (replies_fit 0 0).1))),
    )
