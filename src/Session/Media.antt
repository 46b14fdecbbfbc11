-- ===== src/Session/Media.antt =====
-- Video and audio messages in rtmp_stream.cpp: `CheckReadyToPublish` to `PublishStream`. The
-- timestamps' scale is 1.0, which changes no number below 2 ^ 53.
use media_engine.Base.{
  Bool, true, false, Option, none, some, List, [], ltb, ◌+◌, ◌%◌, ◌^◌, ◌&&◌, ◌||◌, ◌∷◌, ◌++◌, ◌==◌,
  if◌then◌else◌,
}
use media_engine.Rtmp.Header.{Message}
use media_engine.Rtmp.ImportChunk.{rtmp_max_packet_size}
use media_engine.Flv.{
  FlvVideoData, FlvAudioData, Parsed, rejected, parsed, parse_video, parse_audio,
}
use media_engine.Flv
use media_engine.Bitstream.Aac.{parse_aac_config, get_aac_extradata}
use media_engine.Bitstream.Avc.{parse_avc_config, get_avc_extradata}
use media_engine.Session.{
  MediaType, video, audio, RtmpStream, Environment, Run, returns, crash, Action, ◌>>=◌, ◌>>◌, pure,
  modify, ignore,
}
use media_engine.Session.Tracks.{
  video_track_id, audio_track_id, get_track, is_empty, convert_to_media_sample, set_track_info,
}

-- `CheckReadyToPublish`: both kinds have come, or more than half of `MAX_STREAM_MESSAGE_COUNT`
-- messages of one.
unfoldable pub check_ready_to_publish : RtmpStream → Bool
check_ready_to_publish st =
    let info = st.media_info in
    if info.video_stream_coming && info.audio_stream_coming
    then true
    else if info.video_stream_coming && ltb 50 st.stream_message_cache_video_count
    then true
    else info.audio_stream_coming && ltb 50 st.stream_message_cache_audio_count

-- The `Parse` of a sequence header whose result nothing looks at.
unfoldable pub parse_sequence_header : {A : Type 0} → Bool → Parsed A → Run Bool → Run Bool
parse_sequence_header true Flv.crash rest = crash
parse_sequence_header true _ rest = rest
parse_sequence_header false p rest = rest

-- `ReceiveVideoMessage` from the parsing of the tag on.
unfoldable pub video_frame : Environment → Message → Parsed FlvVideoData → Action Bool
unfolding parse_sequence_header parse_avc_config get_track convert_to_media_sample
video_frame env m rejected st = returns false st
video_frame env m Flv.crash st = crash
video_frame env m (parsed flv) st =
    let dts = m.header.completed.timestamp in
    elim (get_track video_track_id st.tracks) [
      | none ↦ returns false st
      | some t ↦ parse_sequence_header (flv.packet_type == 0) (parse_avc_config flv.payload) (
          if flv.packet_type == 2
          then returns true st
          else (ignore (
                  convert_to_media_sample get_avc_extradata t (flv.packet_type == 0) dts
                    (dts + flv.composition_time) (flv.frame_type == 1) flv.payload)
                >> pure true)
              st)
    ]

-- `ReceiveAudioMessage` from the parsing of the tag on.
unfoldable pub audio_frame : Environment → Message → Parsed FlvAudioData → Action Bool
unfolding parse_sequence_header parse_aac_config get_track convert_to_media_sample
audio_frame env m rejected st = returns false st
audio_frame env m Flv.crash st = crash
audio_frame env m (parsed flv) st =
    let dts = m.header.completed.timestamp in
    elim (get_track audio_track_id st.tracks) [
      | none ↦ returns false st
      | some t ↦ parse_sequence_header (flv.packet_type == 0) (parse_aac_config flv.payload) (
          (ignore (
                convert_to_media_sample get_aac_extradata t (flv.packet_type == 0) dts dts true
                  flv.payload)
              >> pure true)
            st)
    ]

-- The size that a message of a type may have: `RTMP_VIDEO_DATA_MIN_SIZE` and
-- `RTMP_AAC_AUDIO_DATA_MIN_SIZE` at least.
unfoldable pub bad_size : MediaType → Message → Bool
bad_size video m = ltb m.header.payload_size 5 || ltb rtmp_max_packet_size m.header.payload_size
bad_size audio m = ltb m.header.payload_size 2 || ltb rtmp_max_packet_size m.header.payload_size

-- Whether a kind of stream is coming, and the mark that it is.
unfoldable pub stream_coming : MediaType → RtmpStream → Bool
stream_coming video st = st.media_info.video_stream_coming
stream_coming audio st = st.media_info.audio_stream_coming

unfoldable pub mark_coming : MediaType → RtmpStream → RtmpStream
mark_coming video st = record st {
  media_info = record st.media_info { video_stream_coming = true };
}
mark_coming audio st = record st {
  media_info = record st.media_info { audio_stream_coming = true };
}

-- The callback parts of `ReceiveVideoMessage` and `ReceiveAudioMessage`.
unfoldable pub media_frame : Environment → MediaType → Message → Action Bool
unfolding stream_coming parse_video parse_audio video_frame audio_frame
media_frame env video m st =
    if stream_coming video st then video_frame env m (parse_video m.payload) st else returns true st
media_frame env audio m st =
    if stream_coming audio st then audio_frame env m (parse_audio m.payload) st else returns true st

-- `ReceiveVideoMessage` and `ReceiveAudioMessage` on a stream that is published.
unfoldable pub receive_published : Environment → MediaType → Message → Action Bool
unfolding bad_size media_frame
receive_published env type m st =
    if bad_size type m then returns false st else media_frame env type m st

-- The type of a message that `PublishStream` replays, `RTMP_MSGID_AUDIO_MESSAGE` and
-- `RTMP_MSGID_VIDEO_MESSAGE`.
unfoldable pub media_type_of : Message → Option MediaType
media_type_of m =
    if m.header.completed.type_id == 9
    then some video
    else if m.header.completed.type_id == 8
    then some audio
    else none

-- A stored message, when its stream is coming.
unfoldable pub replay_one : Environment → Message → Action Unit
unfolding media_type_of stream_coming receive_published
replay_one env m st = elim (media_type_of m) [
  | none ↦ returns tt st
  | some type ↦
      if stream_coming type st then ignore (receive_published env type m) st else returns tt st
]

unfoldable pub replay : Environment → List Message → Action Unit
unfolding replay_one
replay env [] = pure tt
replay env (m ∷ ms) = replay_one env m >> replay env ms

-- `PublishStream`: a stream without a name counts as published, and its messages stay stored.
unfoldable pub publish_stream : Environment → Action Bool
unfolding is_empty set_track_info replay
publish_stream env st =
    if is_empty st.stream_name
    then returns false (record st { published = true })
    else (replay env st.stream_message_cache
          >> modify (λ r. record r { stream_message_cache = [] })
          >> pure true)
        (record st { published = true; tracks = set_track_info st.media_info st.tracks })

-- The tail of `ReceiveVideoMessage` and `ReceiveAudioMessage` on a stream that is not published:
-- either counts a stored message as a video message.
unfoldable pub store_message : Message → Action Bool
store_message m st = returns true (record st {
  stream_message_cache = st.stream_message_cache ++ (m ∷ []);
  stream_message_cache_video_count = (st.stream_message_cache_video_count + 1) % 2 ^ 32;
})

unfoldable pub receive_unpublished : Environment → MediaType → Message → Action Bool
unfolding check_ready_to_publish publish_stream store_message media_frame
receive_unpublished env type m st =
    if check_ready_to_publish st
    then (publish_stream env >>= (λ done. if done then media_frame env type m else pure false)) st
    else store_message m st

-- `ReceiveVideoMessage` and `ReceiveAudioMessage`
unfoldable pub receive_media_message : Environment → MediaType → Message → Action Bool
unfolding bad_size mark_coming receive_unpublished media_frame
receive_media_message env type m st =
    if bad_size type m
    then returns false st
    else if st.published
    then media_frame env type m st
    else receive_unpublished env type m (mark_coming type st)
