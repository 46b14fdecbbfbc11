-- ===== src/Session/Send.antt =====
-- The sending half of rtmp_stream.cpp, from `SendData` to `SendAmfOnStatus`. Objects are written as
-- the pairs that `AddProperty` puts into them.
use media_engine.Base.{
  ℕ, Bool, true, false, [], ltb, length, drop, ◌+◌, ◌∷◌, ◌++◌, ◌==◌, if◌then◌else◌,
}
use media_engine.Base.Bytes.{Bytes}
use media_engine.Base.Texts.{codes}
use media_engine.Amf.Value.{AmfProperty, null, number, string, array, object, nil, pair}
use media_engine.Amf.Document.{Properties, encode_document}
use media_engine.Rtmp.MuxUtil.{write_int8, write_int16, write_int32}
use media_engine.Rtmp.ExportChunk.{
  MuxMessageHeader, ExportChunk, Exported, overflow, exported, export_stream_data,
}
use media_engine.Rtmp.ExportChunk
use media_engine.Rtmp.Handshake.{make_s1, make_s2}
use media_engine.Session.{
  HandshakeState, c1, s0, s1, s2, Environment, returns, crash, Action, bind, ◌>>◌, pure, modify,
  ◌&then◌, client_id, one,
}

-- `SendData`
unfoldable pub send_data : Bytes → Action Bool
send_data bytes st = returns true (record st { sent = st.sent ++ (bytes ∷ []) })

-- `SendMessagePacket`, once the exporter has returned.
unfoldable pub send_exported : ExportChunk × Exported → Action Bool
unfolding send_data
send_exported (c, ExportChunk.null) st = returns false (record st { export_chunk = c })
send_exported (c, overflow) st = crash
send_exported (c, exported bytes) st = send_data bytes (record st { export_chunk = c })

unfoldable pub send_message_packet : MuxMessageHeader → Bytes → Action Bool
unfolding send_exported export_stream_data
send_message_packet m body st = send_exported (export_stream_data st.export_chunk m body) st

-- `RtmpMuxMessageHeader(chunk_stream_id, 0, type_id, stream_id, body_size)`
abbrev pub new_message_header : ℕ → ℕ → ℕ → ℕ → MuxMessageHeader
new_message_header chunk_id type stream size = record {
  chunk_stream_id = chunk_id;
  timestamp = 0;
  type_id = type;
  stream_id = stream;
  body_size = size;
}

unfoldable pub send_user_control_message : ℕ → Bytes → Action Bool
unfolding send_message_packet write_int16
send_user_control_message message body =
    send_message_packet (new_message_header 2 4 0 (length body + 2)) (write_int16 message ++ body)

unfoldable pub send_window_acknowledgement_size : ℕ → Action Bool
unfolding send_message_packet write_int32
send_window_acknowledgement_size size st =
    send_message_packet (new_message_header 2 5 st.rtmp_stream_id 4) (write_int32 size) st

unfoldable pub send_acknowledgement_size : ℕ → Action Bool
unfolding send_message_packet write_int32
send_acknowledgement_size traffic =
    send_message_packet (new_message_header 2 3 0 4) (write_int32 traffic)

unfoldable pub send_set_peer_bandwidth : ℕ → Action Bool
unfolding send_message_packet write_int32 write_int8
send_set_peer_bandwidth bandwidth st =
    send_message_packet (new_message_header 2 6 st.rtmp_stream_id 5)
      (write_int32 bandwidth ++ write_int8 2) st

unfoldable pub send_stream_begin : Action Bool
unfolding send_user_control_message write_int32
send_stream_begin st = send_user_control_message 0 (write_int32 st.rtmp_stream_id) st

unfoldable pub send_stream_end : Action Bool
unfolding send_user_control_message write_int32
send_stream_end st = send_user_control_message 1 (write_int32 st.rtmp_stream_id) st

-- `SendAmfCommand`: `Encode` writes into 2048 bytes without a look at their end.
unfoldable pub send_amf_command : MuxMessageHeader → Properties → Action Bool
unfolding send_message_packet encode_document
send_amf_command m document st =
    let body = encode_document document in
    if ltb 2048 (length body)
    then crash
    else if length body == 0
    then returns false st
    else send_message_packet (record m { body_size = length body }) body st

-- The documents that are sent.
unfoldable pub connect_result : ℕ → ℕ → Properties
connect_result transaction_id object_encoding =
    string (codes "_result")
    ∷ number transaction_id
    ∷ object (
        pair (codes "fmsVer") (string (codes "FMS/3,5,2,654")) (
          pair (codes "capabilities") (number 0x403f000000000000)
            (pair (codes "mode") (number one) nil)))
    ∷ object (
        pair (codes "level") (string (codes "status")) (
          pair (codes "code") (string (codes "NetConnection.Connect.Success")) (
            pair (codes "description") (string (codes "Connection succeeded.")) (
              pair (codes "clientid") (number client_id) (
                pair (codes "objectEncoding") (number object_encoding) (
                  pair (codes "data")
                    (array (pair (codes "version") (string (codes "3,5,2,654")) nil)) nil))))))
    ∷ []

unfoldable pub status_object : Bytes → Bytes → Bytes → ℕ → AmfProperty
status_object level code description client = object (
    pair (codes "level") (string level) (
      pair (codes "code") (string code) (
        pair (codes "description") (string description)
          (pair (codes "clientid") (number client) nil))))

unfoldable pub on_fc_publish : ℕ → Properties
unfolding status_object
on_fc_publish client =
    string (codes "onFCPublish")
    ∷ number 0
    ∷ null
    ∷ status_object (codes "status") (codes "NetStream.Publish.Start") (codes "FCPublish") client
    ∷ []

unfoldable pub create_stream_result : ℕ → Properties
create_stream_result transaction_id =
    string (codes "_result") ∷ number transaction_id ∷ null ∷ number one ∷ []

unfoldable pub on_status : Bytes → Bytes → Bytes → ℕ → Properties
unfolding status_object
on_status level code description client =
    string (codes "onStatus") ∷ number 0 ∷ null ∷ status_object level code description client ∷ []

unfoldable pub send_amf_connect_result : ℕ → ℕ → ℕ → Action Bool
unfolding send_amf_command connect_result
send_amf_connect_result chunk_id transaction_id object_encoding st =
    send_amf_command (new_message_header chunk_id 20 st.rtmp_stream_id 0)
      (connect_result transaction_id object_encoding) st

unfoldable pub send_amf_on_fc_publish : ℕ → ℕ → Action Bool
unfolding send_amf_command on_fc_publish
send_amf_on_fc_publish chunk_id client st =
    send_amf_command (new_message_header chunk_id 20 st.rtmp_stream_id 0) (on_fc_publish client) st

-- `SendAmfCreateStreamResult` settles the stream's id: 1.
unfoldable pub send_amf_create_stream_result : ℕ → ℕ → Action Bool
unfolding send_amf_command create_stream_result
send_amf_create_stream_result chunk_id transaction_id st =
    send_amf_command (new_message_header chunk_id 20 0 0) (create_stream_result transaction_id)
      (record st { rtmp_stream_id = 1 })

unfoldable pub send_amf_on_status : ℕ → ℕ → Bytes → Bytes → Bytes → ℕ → Action Bool
unfolding send_amf_command on_status
send_amf_on_status chunk_id stream level code description client =
    send_amf_command (new_message_header chunk_id 20 stream 0)
      (on_status level code description client)

-- `SendHandshake` on a copy of what has arrived.
abbrev pub set_handshake_state : HandshakeState → Action Unit
set_handshake_state h = modify (λ st. record st { handshake_state = h })

unfoldable pub send_handshake : Environment → Bytes → Action Bool
unfolding bind send_data make_s1 make_s2
send_handshake env arrived =
    set_handshake_state c1
    >> (send_data (3 ∷ [])
        &then (set_handshake_state s0
            >> (send_data (make_s1 env.supply env.now)
                &then (set_handshake_state s1
                    >> (send_data (make_s2 env.supply (drop 1 arrived))
                        &then (set_handshake_state s2 >> pure true))))))
