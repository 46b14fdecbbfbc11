-- ===== src/Session/Tests.antt =====
-- The session's theorems on concrete sessions.
use media_engine.Base.{
  ℕ, refl, true, none, some, List, [], arith, length, get_elem?, replicate, length-append,
  length-replicate, ◌+◌, ◌≡◌, ◌∷◌, ◌++◌,
}
use media_engine.Base.Bytes.{Bytes}
use media_engine.Base.Texts.{codes}
use media_engine.Amf.Value.{null, number, string, object, nil, pair}
use media_engine.Amf.Document.{Properties}
use media_engine.Rtmp.Header.{Message, new_chunk_header, zero_completed}
use media_engine.Rtmp.Handshake.{packet_size, byte_at}
use media_engine.Session.{
  RtmpStream, new_rtmp_stream, new_media_info, Environment, returns, audio, bind, complete, one,
  client_id,
}
use media_engine.Session.Commands.{
  take_names, object_encoding_of, string_at, on_amf_connect, on_amf_create_stream, on_amf_publish,
  on_amf_fc_publish,
}
use media_engine.Session.Tracks.{is_empty}
use media_engine.Session.Media.{
  receive_media_message, bad_size, check_ready_to_publish, mark_coming,
}
use media_engine.Session.Receive.{
  on_data, receive_packet, packet_loop, receive_handshake_packet, receive_handshake_in,
  receive_c0_c1, is_complete, cut_remained,
}
use media_engine.Session.Keeping.{Sound, Yields, Ends}
use media_engine.Session.Invariant.{
  Took, start, next, on_data-Sound, reachable-Sound, receive_packet-Took,
}
use media_engine.Session.Sends.{Sends, command}
use media_engine.Session.Send.{create_stream_result, on_fc_publish}
use media_engine.Session.Replies.{
  connect_replies, connect-Sends, publish_replies, with_url, publish-ByUrl,
}
use media_engine.Session.Replay.{opened, as_published}
use media_engine.Session.Live.{IsLive, media_message-IsLive}
use media_engine.Session.Publishing.{receive_all, StaysAudio, audio_only-OnlyAudio}
use media_engine.Session.Handshaking.{on_all, joined, Completes, handshake-Completes}

-- No URL parses, and the handshake gets zeros.
abbrev nothing_parses : Environment
nothing_parses = record {
  supply = record {
    hmac_sha256 = λ key message. replicate 32 0;
    random_bytes = λ n. replicate n 0;
  };
  now = 77;
  url_stream = λ url. none;
  to_int32 = λ bits. bits;
  to_float = λ bits. bits;
  strtol = λ text. 0;
}

new-Sound : Sound new_rtmp_stream
new-Sound = ((omega arith, refl), omega arith, tt, tt)

-- The client's version is there.
abbrev one_byte : RtmpStream
one_byte = record new_rtmp_stream { remained_data = 3 ∷ [] }

one_byte_run : on_data nothing_parses (3 ∷ []) new_rtmp_stream ≡ returns tt one_byte
unfolding on_data packet_loop receive_packet is_complete receive_handshake_packet
    receive_handshake_in receive_c0_c1 cut_remained bind
one_byte_run = refl

on_data-Sound_example : Ends Sound (on_data nothing_parses (replicate 1600 3) new_rtmp_stream)
on_data-Sound_example = on_data-Sound nothing_parses (replicate 1600 3) new_rtmp_stream new-Sound

reachable-Sound_example : Sound one_byte
reachable-Sound_example = reachable-Sound nothing_parses one_byte (next (3 ∷ []) start one_byte_run)

-- A session behind its handshake.
abbrev ready : RtmpStream
ready = record new_rtmp_stream { handshake_state = complete }

receive_packet-Took_example :
    Yields (Took 4) (receive_packet nothing_parses (3 ∷ 0 ∷ 0 ∷ 0 ∷ []) ready)
receive_packet-Took_example =
    receive_packet-Took nothing_parses (3 ∷ 0 ∷ 0 ∷ 0 ∷ []) ready
      ((omega arith, refl), omega arith, tt, tt)

abbrev pieces : List Bytes
pieces = replicate 1000 3 ∷ [] ∷ replicate 2073 3 ∷ []

pieces_enough : length (joined pieces) ≡ 1 + packet_size + packet_size
unfolding joined
pieces_enough = omega (
  arith,
  length-append {A = ℕ} (replicate 1000 3) (replicate 2073 3 ++ []),
  length-append {A = ℕ} (replicate 2073 3) [],
  length-replicate {A = ℕ} 1000 3,
  length-replicate {A = ℕ} 2073 3,
)

pieces_version : byte_at (joined pieces) 0 ≡ 3
unfolding joined
pieces_version = refl

handshake-Completes_example :
    Completes nothing_parses (joined pieces) (on_all nothing_parses pieces new_rtmp_stream)
handshake-Completes_example = handshake-Completes nothing_parses pieces pieces_enough pieces_version

-- `publish` with the name "live".
abbrev publish_live : Properties
publish_live = string (codes "publish") ∷ number 0 ∷ null ∷ string (codes "live") ∷ []

-- `connect` to the application "live".
abbrev connect_live : Properties
connect_live =
    string (codes "connect")
    ∷ number one
    ∷ object (
        pair (codes "app") (string (codes "live"))
          (pair (codes "tcUrl") (string (codes "rtmp://a/live")) nil))
    ∷ []

connect-Sends_example :
    Sends
      (connect_replies 3 1 one 0)
      (take_names (get_elem? connect_live 2) ready)
      (on_amf_connect 3 connect_live one ready)
    × Sends
        (command 3 0 (create_stream_result one) ∷ [])
        (record ready { rtmp_stream_id = 1 })
        (on_amf_create_stream 3 one ready)
unfolding take_names object_encoding_of
connect-Sends_example = connect-Sends 3 connect_live one ready (omega arith)

-- Every URL parses, and names the stream "live".
abbrev all_parses : Environment
all_parses = record nothing_parses { url_stream = λ url. some (codes "live") }

publish-ByUrl_example :
    Sends
      (publish_replies 3 1)
      (record (with_url ready (codes "/live") (codes "live")) { chunk_stream_id = 3 })
      (on_amf_publish all_parses 3 publish_live ready)
    × Sends
        (command 3 1 (on_fc_publish client_id) ∷ [])
        (with_url ready (codes "/live") (codes "live"))
        (on_amf_fc_publish all_parses 3 publish_live ready)
unfolding is_empty string_at
publish-ByUrl_example =
    publish-ByUrl all_parses 3 publish_live (codes "live") ready (omega arith) refl refl

-- An audio message of three bytes.
abbrev audio_message : Message
audio_message = record {
  header = record new_chunk_header {
    payload_size = 3;
    completed = record zero_completed { type_id = 8; length = 3 };
  };
  payload = 0xaf ∷ 1 ∷ 9 ∷ [];
}

audio_only-OnlyAudio_example :
    StaysAudio (receive_all nothing_parses audio (audio_message ∷ audio_message ∷ []) ready)
audio_only-OnlyAudio_example =
    audio_only-OnlyAudio nothing_parses (audio_message ∷ audio_message ∷ []) ready
      (refl, refl, refl)

-- A named stream to which video has come.
abbrev half_ready : RtmpStream
half_ready = record ready {
  stream_name = codes "live";
  media_info = record new_media_info { video_stream_coming = true };
  stream_message_cache = audio_message ∷ [];
}

media_message-IsLive_example :
    (receive_media_message nothing_parses audio audio_message half_ready
      ≡ as_published nothing_parses audio audio_message
          (audio_message ∷ [])
          (opened audio half_ready))
    × Ends IsLive (receive_media_message nothing_parses audio audio_message half_ready)
unfolding bad_size check_ready_to_publish mark_coming is_empty
media_message-IsLive_example =
    media_message-IsLive nothing_parses audio audio_message half_ready refl refl refl refl
