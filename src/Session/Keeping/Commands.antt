-- ===== src/Session/Keeping/Commands.antt =====
-- AMF messages keep the invariant.
use media_engine.Base.{ℕ, zero, suc, Bool, Option, none, some, List, get_elem?, ◌&&◌, ◌∷◌, ◌++◌}
use media_engine.Base.Bytes.{Bytes}
use media_engine.Base.Texts.{codes}
use media_engine.Amf.Value.{AmfProperty, null, undefined, number, boolean, string, array, object}
use media_engine.Amf.Decode.{Decoded, fail, overread, overflow, stuck, decoded}
use media_engine.Amf.Document.{Properties, decode_document}
use media_engine.Amf.Object.{same_text}
use media_engine.Amf.Fuel
use media_engine.Amf.Document.Termination.{decode_document-Ends}
use media_engine.Rtmp.Header.{Message}
use media_engine.Session.{
  RtmpStream, Environment, crash, Action, modify, ◌&then◌, client_id, peer_bandwidth,
  default_acknowledgement_size,
}
use media_engine.Session.Send.{
  send_window_acknowledgement_size, send_set_peer_bandwidth, send_stream_begin,
  send_amf_connect_result, send_amf_on_fc_publish, send_amf_create_stream_result,
  send_amf_on_status,
}
use media_engine.Session.Tracks.{is_empty}
use media_engine.Session.MetaData.{number_or, on_amf_meta_data}
use media_engine.Session.Commands.{
  object_encoding_of, take_names, on_amf_connect, on_amf_create_stream, take_stream_name, string_at,
  on_amf_fc_publish, start_publishing, reject_publishing, on_amf_publish, run_command,
  command_document, on_document, receive_amf_command_message, meta_pairs, has_text, data_document,
  receive_amf_data_message,
}
use media_engine.Session.Keeping.{
  Good, Keeps, seq-Keeps, then-Keeps, ignore-Keeps, if-Ends, option-Ends,
}
use media_engine.Session.Keeping.Sending.{
  window-Keeps, bandwidth-Keeps, stream_begin-Keeps, connect_result-Keeps, fc_publish-Keeps,
  create_stream-Keeps, on_status-Keeps,
}

module _ {queue : List Message} where
  take_names-Good :
      (v : Option AmfProperty) (st : RtmpStream) → Good queue st → Good queue (take_names v st)
  unfolding take_names
  take_names-Good none st h = h
  take_names-Good (some null) st h = h
  take_names-Good (some undefined) st h = h
  take_names-Good (some (number n)) st h = h
  take_names-Good (some (boolean b)) st h = h
  take_names-Good (some (string s)) st h = h
  take_names-Good (some (array ps)) st h = h
  take_names-Good (some (object ps)) st h = h

  connect-Keeps :
      (chunk_id : ℕ) (document : Properties) (transaction_id : ℕ)
      → Keeps (Good queue) (on_amf_connect chunk_id document transaction_id)
  unfolding on_amf_connect
  connect-Keeps chunk_id document transaction_id =
      let names : Action Unit = modify (take_names (get_elem? document 2)) in
      let encoding = object_encoding_of (get_elem? document 2) in
      let result : Action Bool = send_amf_connect_result chunk_id transaction_id encoding in
      let begin : Action Bool = send_stream_begin &then result in
      let bandwidth : Action Bool = send_set_peer_bandwidth peer_bandwidth &then begin in
      let window : Action Bool = send_window_acknowledgement_size default_acknowledgement_size in
      seq-Keeps names (window &then bandwidth) (λ st h. take_names-Good (get_elem? document 2) st h)
        (then-Keeps window bandwidth (window-Keeps default_acknowledgement_size) (
          then-Keeps (send_set_peer_bandwidth peer_bandwidth) begin (bandwidth-Keeps peer_bandwidth)
            (then-Keeps send_stream_begin result stream_begin-Keeps
              (connect_result-Keeps chunk_id transaction_id encoding))))

  take_stream_name-Keeps :
      (env : Environment) (name : Bytes) → Keeps (Good queue) (take_stream_name env name)
  unfolding take_stream_name
  take_stream_name-Keeps env name st h =
      option-Ends (Good queue) (env.url_stream (st.tc_url ++ (0x2f ∷ name))) crash _ tt (λ _ _. h)

  fc_publish_handler-Keeps :
      (env : Environment) (chunk_id : ℕ) (document : Properties)
      → Keeps (Good queue) (on_amf_fc_publish env chunk_id document)
  unfolding on_amf_fc_publish
  fc_publish_handler-Keeps env chunk_id document st h =
      if-Ends (Good queue) (is_empty st.stream_name) _ _
        (λ _. option-Ends (Good queue) (string_at document 3) _ _ h (λ name _.
          then-Keeps {P = Good queue} (send_amf_on_fc_publish chunk_id client_id)
            (take_stream_name env name) (fc_publish-Keeps chunk_id client_id)
            (take_stream_name-Keeps env name) st h))
        (λ _. h)

  start_publishing-Keeps : (chunk_id : ℕ) → Keeps (Good queue) (start_publishing chunk_id)
  unfolding start_publishing
  start_publishing-Keeps chunk_id =
      let mark : Action Unit = modify (λ st. record st { chunk_stream_id = chunk_id }) in
      let status : Action Bool = (λ st.
        send_amf_on_status st.chunk_stream_id st.rtmp_stream_id (codes "status")
          (codes "NetStream.Publish.Start") (codes "Publishing") client_id st) in
      seq-Keeps mark (send_stream_begin &then status) (λ st h. h)
        (then-Keeps send_stream_begin status stream_begin-Keeps (λ st h.
          on_status-Keeps st.chunk_stream_id st.rtmp_stream_id (codes "status")
            (codes "NetStream.Publish.Start") (codes "Publishing") client_id st h))

  reject_publishing-Keeps : (chunk_id : ℕ) → Keeps (Good queue) (reject_publishing chunk_id)
  unfolding reject_publishing
  reject_publishing-Keeps chunk_id st h =
      on_status-Keeps chunk_id st.rtmp_stream_id (codes "error")
        (codes "NetStream.Publish.Rejected") (codes "Authentication Failed.") client_id st h

  publish_handler-Keeps :
      (env : Environment) (chunk_id : ℕ) (document : Properties)
      → Keeps (Good queue) (on_amf_publish env chunk_id document)
  unfolding on_amf_publish
  publish_handler-Keeps env chunk_id document st h =
      if-Ends (Good queue) (is_empty st.stream_name) _ _
        (λ _.
          option-Ends (Good queue) (string_at document 3) _ _
            (reject_publishing-Keeps chunk_id st h)
            (λ name _.
              seq-Keeps {P = Good queue} (take_stream_name env name) (start_publishing chunk_id)
                (take_stream_name-Keeps env name) (start_publishing-Keeps chunk_id) st h))
        (λ _. start_publishing-Keeps chunk_id st h)

  run_command-Keeps :
      (env : Environment) (name : Bytes) (chunk_id : ℕ) (document : Properties) (transaction_id : ℕ)
      → Keeps (Good queue) (run_command env name chunk_id document transaction_id)
  unfolding run_command on_amf_create_stream
  run_command-Keeps env name chunk_id document transaction_id st h =
      if-Ends (Good queue) (same_text name (codes "connect")) _ _
        (λ _.
          ignore-Keeps {P = Good queue} (on_amf_connect chunk_id document transaction_id)
            (connect-Keeps chunk_id document transaction_id) st h)
        (λ _.
          if-Ends (Good queue) (same_text name (codes "createStream")) _ _
            (λ _.
              ignore-Keeps {P = Good queue} (send_amf_create_stream_result chunk_id transaction_id)
                (create_stream-Keeps chunk_id transaction_id) st h)
            (λ _.
              if-Ends (Good queue) (same_text name (codes "FCPublish")) _ _
                (λ _.
                  ignore-Keeps {P = Good queue} (on_amf_fc_publish env chunk_id document)
                    (fc_publish_handler-Keeps env chunk_id document) st h)
                (λ _.
                  if-Ends (Good queue) (same_text name (codes "publish")) _ _
                    (λ _.
                      ignore-Keeps {P = Good queue} (on_amf_publish env chunk_id document)
                        (publish_handler-Keeps env chunk_id document) st h)
                    (λ _. h))))

  command_document-Keeps :
      (env : Environment) (chunk_id : ℕ) (document : Properties) (n : ℕ)
      → Keeps (Good queue) (command_document env chunk_id document n)
  unfolding command_document
  command_document-Keeps env chunk_id document zero st h = h
  command_document-Keeps env chunk_id document (suc n) st h =
      option-Ends (Good queue) (string_at document 0) _ _ h (λ name _.
        run_command-Keeps env name chunk_id document (number_or 0 (get_elem? document 1)) st h)

  data_document-Keeps :
      (env : Environment) (document : Properties) (n : ℕ)
      → Keeps (Good queue) (data_document env document n)
  unfolding data_document on_amf_meta_data
  data_document-Keeps env document zero st h = h
  data_document-Keeps env document (suc n) st h =
      if-Ends (Good queue)
        (has_text (string_at document 0) (codes "@setDataFrame")
          && has_text (string_at document 1) (codes "onMetaData"))
        _ _ (λ _. option-Ends (Good queue) (meta_pairs (get_elem? document 2)) _ _ h (λ _ _. h))
        (λ _. h)

  on_document-Keeps :
      (r : Decoded Properties) (k : Properties → ℕ → Action Unit)
      → Fuel.Ends r
      → ((document : Properties) (n : ℕ) → Keeps (Good queue) (k document n))
      → Keeps (Good queue) (on_document r k)
  unfolding on_document
  on_document-Keeps (decoded document n) k ends hk st h = hk document n st h
  on_document-Keeps fail k ends hk st h = h
  on_document-Keeps overread k ends hk st h = tt
  on_document-Keeps overflow k ends hk st h = tt
  on_document-Keeps stuck k ends hk st h = ends

  pub command_message-Keeps :
      (env : Environment) (m : Message) → Keeps (Good queue) (receive_amf_command_message env m)
  unfolding receive_amf_command_message
  command_message-Keeps env m =
      on_document-Keeps (decode_document m.payload m.header.payload_size)
        (command_document env m.header.stream_id)
        (decode_document-Ends m.payload m.header.payload_size)
        (command_document-Keeps env m.header.stream_id)

  pub data_message-Keeps :
      (env : Environment) (m : Message) → Keeps (Good queue) (receive_amf_data_message env m)
  unfolding receive_amf_data_message
  data_message-Keeps env m =
      on_document-Keeps (decode_document m.payload m.header.payload_size) (data_document env)
        (decode_document-Ends m.payload m.header.payload_size) (data_document-Keeps env)
