-- ===== src/Session/Commands.antt =====
-- The AMF handlers of rtmp_stream.cpp: `OnAmfConnect` to `OnAmfDeleteStream`,
-- `ReceiveAmfCommandMessage` and `ReceiveAmfDataMessage`. A `void` handler ends where a reply could
-- not be sent, as one that returns false would.
use media_engine.Base.{
  ℕ, zero, suc, Bool, true, false, Option, none, some, get_elem?, ◌&&◌, ◌∷◌, ◌++◌, if◌then◌else◌,
}
use media_engine.Base.Bytes.{Bytes}
use media_engine.Base.Texts.{codes}
use media_engine.Amf.Value.{AmfProperty, string, array, object, Pairs}
use media_engine.Amf.Decode.{Decoded, fail, overread, overflow, decoded}
use media_engine.Amf.Document.{Properties, decode_document}
use media_engine.Amf.Object.{same_text}
use media_engine.Rtmp.Header.{Message}
use media_engine.Session.{
  RtmpStream, Environment, returns, crash, Action, bind, ◌>>◌, modify, ◌&then◌, ignore, client_id,
  peer_bandwidth, default_acknowledgement_size,
}
use media_engine.Session
use media_engine.Session.Send.{
  send_window_acknowledgement_size, send_set_peer_bandwidth, send_stream_begin,
  send_amf_connect_result, send_amf_on_fc_publish, send_amf_create_stream_result,
  send_amf_on_status,
}
use media_engine.Session.Tracks.{is_empty}
use media_engine.Session.MetaData.{named, number_or, string_or, on_amf_meta_data}

-- The number and the strings of the object that comes with `connect`.
unfoldable pub object_encoding_of : Option AmfProperty → ℕ
unfolding named number_or
object_encoding_of (some (object ps)) = number_or 0 (named (codes "objectEncoding") ps)
object_encoding_of _ = 0

unfoldable pub take_names : Option AmfProperty → RtmpStream → RtmpStream
unfolding named string_or
take_names (some (object ps)) st = record st {
  app_name = string_or st.app_name (named (codes "app") ps);
  tc_url = string_or st.tc_url (named (codes "tcUrl") ps);
}
take_names _ st = st

unfoldable pub on_amf_connect : ℕ → Properties → ℕ → Action Bool
unfolding bind take_names object_encoding_of send_window_acknowledgement_size
    send_set_peer_bandwidth send_stream_begin send_amf_connect_result
on_amf_connect chunk_id document transaction_id =
    modify (take_names (get_elem? document 2))
    >> (send_window_acknowledgement_size default_acknowledgement_size
        &then (send_set_peer_bandwidth peer_bandwidth
            &then (send_stream_begin
                &then send_amf_connect_result chunk_id transaction_id
                    (object_encoding_of (get_elem? document 2)))))

unfoldable pub on_amf_create_stream : ℕ → ℕ → Action Bool
unfolding send_amf_create_stream_result
on_amf_create_stream chunk_id transaction_id = send_amf_create_stream_result chunk_id transaction_id

-- The stream's name from the URL that the name and `tcUrl` make. Where `Parse` returns null, the
-- port is asked of a null pointer.
unfoldable pub take_stream_name : Environment → Bytes → Action Bool
take_stream_name env name st =
    let url = st.tc_url ++ (0x2f ∷ name) in
    elim (env.url_stream url) [
      | none ↦ crash
      | some stream ↦ returns true (record st { full_url = url; stream_name = stream })
    ]

-- The name that is published, when the stream has none yet.
unfoldable pub string_at : Properties → ℕ → Option Bytes
string_at document i = elim (get_elem? document i) [ some (string s) ↦ some s | _ ↦ none ]

unfoldable pub on_amf_fc_publish : Environment → ℕ → Properties → Action Bool
unfolding bind is_empty string_at send_amf_on_fc_publish take_stream_name
on_amf_fc_publish env chunk_id document st =
    if is_empty st.stream_name
    then elim (string_at document 3) [
      | none ↦ returns true st
      | some name ↦ (send_amf_on_fc_publish chunk_id client_id &then take_stream_name env name) st
    ]
    else returns true st

-- `OnAmfPublish` behind the name.
unfoldable pub start_publishing : ℕ → Action Bool
unfolding bind send_stream_begin send_amf_on_status
start_publishing chunk_id =
    modify (λ st. record st { chunk_stream_id = chunk_id })
    >> (send_stream_begin &then (λ st.
        send_amf_on_status st.chunk_stream_id st.rtmp_stream_id (codes "status")
          (codes "NetStream.Publish.Start") (codes "Publishing") client_id st))

unfoldable pub reject_publishing : ℕ → Action Bool
unfolding send_amf_on_status
reject_publishing chunk_id st =
    send_amf_on_status chunk_id st.rtmp_stream_id (codes "error")
      (codes "NetStream.Publish.Rejected") (codes "Authentication Failed.") client_id st

unfoldable pub on_amf_publish : Environment → ℕ → Properties → Action Bool
unfolding bind is_empty string_at take_stream_name start_publishing reject_publishing
on_amf_publish env chunk_id document st =
    if is_empty st.stream_name
    then elim (string_at document 3) [
      | none ↦ reject_publishing chunk_id st
      | some name ↦ (take_stream_name env name >> start_publishing chunk_id) st
    ]
    else start_publishing chunk_id st

-- `OnAmfDeleteStream`, which no message leads to.
unfoldable pub on_amf_delete_stream : RtmpStream → RtmpStream
on_amf_delete_stream st = record st {
  media_info = record st.media_info { video_stream_coming = false; audio_stream_coming = false };
}

-- The commands by their names. `releaseStream`, `ping` and `deleteStream` do nothing, nor does an
-- unknown one.
unfoldable pub run_command : Environment → Bytes → ℕ → Properties → ℕ → Action Unit
unfolding bind same_text on_amf_connect on_amf_create_stream on_amf_fc_publish on_amf_publish
run_command env name chunk_id document transaction_id st =
    if same_text name (codes "connect")
    then ignore (on_amf_connect chunk_id document transaction_id) st
    else if same_text name (codes "createStream")
    then ignore (on_amf_create_stream chunk_id transaction_id) st
    else if same_text name (codes "FCPublish")
    then ignore (on_amf_fc_publish env chunk_id document) st
    else if same_text name (codes "publish")
    then ignore (on_amf_publish env chunk_id document) st
    else returns tt st

-- `ReceiveAmfCommandMessage` on a document of a size.
unfoldable pub command_document : Environment → ℕ → Properties → ℕ → Action Unit
unfolding number_or string_at run_command
command_document env chunk_id document zero st = returns tt st
command_document env chunk_id document (suc n) st = elim (string_at document 0) [
  | none ↦ returns tt st
  | some name ↦ run_command env name chunk_id document (number_or 0 (get_elem? document 1)) st
]

-- What `Decode` comes to.
unfoldable pub on_document : Decoded Properties → (Properties → ℕ → Action Unit) → Action Unit
on_document (decoded document n) k st = k document n st
on_document fail k st = returns tt st
on_document overread k st = crash
on_document overflow k st = crash
on_document Decoded.stuck k st = Session.stuck

unfoldable pub receive_amf_command_message : Environment → Message → Action Unit
unfolding on_document decode_document command_document
receive_amf_command_message env m =
    on_document (decode_document m.payload m.header.payload_size)
      (command_document env m.header.stream_id)

-- The pairs of an object or an array.
unfoldable pub meta_pairs : Option AmfProperty → Option Pairs
meta_pairs (some (object ps)) = some ps
meta_pairs (some (array ps)) = some ps
meta_pairs _ = none

unfoldable pub has_text : Option Bytes → Bytes → Bool
unfolding same_text
has_text none text = false
has_text (some s) text = same_text s text

-- `ReceiveAmfDataMessage` on a document of a size: "@setDataFrame", "onMetaData" and the pairs.
unfoldable pub data_document : Environment → Properties → ℕ → Action Unit
unfolding string_at has_text meta_pairs on_amf_meta_data
data_document env document zero st = returns tt st
data_document env document (suc n) st =
    if has_text (string_at document 0) (codes "@setDataFrame")
      && has_text (string_at document 1) (codes "onMetaData")
    then elim (meta_pairs (get_elem? document 2)) [
      | none ↦ returns tt st
      | some ps ↦ returns tt (on_amf_meta_data env ps st)
    ]
    else returns tt st

unfoldable pub receive_amf_data_message : Environment → Message → Action Unit
unfolding on_document decode_document data_document
receive_amf_data_message env m =
    on_document (decode_document m.payload m.header.payload_size) (data_document env)
