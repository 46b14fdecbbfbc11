-- ===== src/Session/Keeping/Sending.antt =====
-- Sending keeps the invariant.
use media_engine.Base.{ℕ, false, List, [], ltb, length, ◌+◌, ◌∷◌, ◌++◌, ◌==◌}
use media_engine.Base.Bytes.{Bytes}
use media_engine.Rtmp.Header.{Message}
use media_engine.Rtmp.MuxUtil.{write_int8, write_int16, write_int32}
use media_engine.Rtmp.ExportChunk.{
  MuxMessageHeader, ExportChunk, Exported, overflow, exported, export_stream_data,
}
use media_engine.Rtmp.ExportChunk
use media_engine.Amf.Document.{Properties, encode_document}
use media_engine.Session.{RtmpStream, returns, crash}
use media_engine.Session.Send.{
  send_data, send_exported, send_message_packet, new_message_header, send_user_control_message,
  send_window_acknowledgement_size, send_acknowledgement_size, send_set_peer_bandwidth,
  send_stream_begin, send_amf_command, connect_result, on_fc_publish, create_stream_result,
  on_status, send_amf_connect_result, send_amf_on_fc_publish, send_amf_create_stream_result,
  send_amf_on_status,
}
use media_engine.Session.Keeping.{Good, Keeps, if-Ends}

-- A predicate that does not look at the exporter and at what was sent.
module _ (P : RtmpStream → Type 0)
    (frame : (st : RtmpStream) (c : ExportChunk) (packets : List Bytes)
      → P st
      → P (record st { export_chunk = c; sent = packets })) where
  exported-Keeps : (e : ExportChunk × Exported) → Keeps P (send_exported e)
  unfolding send_exported send_data
  exported-Keeps (c, ExportChunk.null) st h = frame st c st.sent h
  exported-Keeps (c, overflow) st h = tt
  exported-Keeps (c, exported bytes) st h = frame st c (st.sent ++ (bytes ∷ [])) h

  pub packet-Keeps : (m : MuxMessageHeader) (body : Bytes) → Keeps P (send_message_packet m body)
  unfolding send_message_packet
  packet-Keeps m body st h = exported-Keeps (export_stream_data st.export_chunk m body) st h

  pub acknowledgement-Keeps : (traffic : ℕ) → Keeps P (send_acknowledgement_size traffic)
  unfolding send_acknowledgement_size
  acknowledgement-Keeps traffic = packet-Keeps (new_message_header 2 3 0 4) (write_int32 traffic)

module _ {queue : List Message} where
  message_packet-Keeps :
      (m : MuxMessageHeader) (body : Bytes) → Keeps (Good queue) (send_message_packet m body)
  message_packet-Keeps = packet-Keeps (Good queue) (λ st c packets h. h)

  user_control-Keeps :
      (message : ℕ) (body : Bytes) → Keeps (Good queue) (send_user_control_message message body)
  unfolding send_user_control_message
  user_control-Keeps message body =
      message_packet-Keeps (new_message_header 2 4 0 (length body + 2))
        (write_int16 message ++ body)

  pub window-Keeps : (size : ℕ) → Keeps (Good queue) (send_window_acknowledgement_size size)
  unfolding send_window_acknowledgement_size
  window-Keeps size st h =
      message_packet-Keeps (new_message_header 2 5 st.rtmp_stream_id 4) (write_int32 size) st h

  pub bandwidth-Keeps : (bandwidth : ℕ) → Keeps (Good queue) (send_set_peer_bandwidth bandwidth)
  unfolding send_set_peer_bandwidth
  bandwidth-Keeps bandwidth st h =
      message_packet-Keeps (new_message_header 2 6 st.rtmp_stream_id 5)
        (write_int32 bandwidth ++ write_int8 2) st h

  pub stream_begin-Keeps : Keeps (Good queue) send_stream_begin
  unfolding send_stream_begin
  stream_begin-Keeps st h = user_control-Keeps 0 (write_int32 st.rtmp_stream_id) st h

  pub amf_command-Keeps :
      (m : MuxMessageHeader) (document : Properties)
      → Keeps (Good queue) (send_amf_command m document)
  unfolding send_amf_command
  amf_command-Keeps m document st h =
      let body = encode_document document in
      if-Ends (Good queue) (ltb 2048 (length body)) crash _ (λ _. tt)
        (λ _.
          if-Ends (Good queue) (length body == 0) (returns false st) _ (λ _. h)
            (λ _. message_packet-Keeps (record m { body_size = length body }) body st h))

  pub connect_result-Keeps :
      (chunk_id transaction_id object_encoding : ℕ)
      → Keeps (Good queue) (send_amf_connect_result chunk_id transaction_id object_encoding)
  unfolding send_amf_connect_result
  connect_result-Keeps chunk_id transaction_id object_encoding st h =
      amf_command-Keeps (new_message_header chunk_id 20 st.rtmp_stream_id 0)
        (connect_result transaction_id object_encoding) st h

  pub fc_publish-Keeps :
      (chunk_id client : ℕ) → Keeps (Good queue) (send_amf_on_fc_publish chunk_id client)
  unfolding send_amf_on_fc_publish
  fc_publish-Keeps chunk_id client st h =
      amf_command-Keeps (new_message_header chunk_id 20 st.rtmp_stream_id 0) (on_fc_publish client)
        st h

  pub create_stream-Keeps :
      (chunk_id transaction_id : ℕ)
      → Keeps (Good queue) (send_amf_create_stream_result chunk_id transaction_id)
  unfolding send_amf_create_stream_result
  create_stream-Keeps chunk_id transaction_id st h =
      amf_command-Keeps (new_message_header chunk_id 20 0 0) (create_stream_result transaction_id)
        (record st { rtmp_stream_id = 1 }) h

  pub on_status-Keeps :
      (chunk_id stream : ℕ) (level code description : Bytes) (client : ℕ)
      → Keeps (Good queue) (send_amf_on_status chunk_id stream level code description client)
  unfolding send_amf_on_status
  on_status-Keeps chunk_id stream level code description client =
      amf_command-Keeps (new_message_header chunk_id 20 stream 0)
        (on_status level code description client)
