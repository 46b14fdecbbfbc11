-- ===== src/Session/Keeping/Frames.antt =====
-- What the samples of video and audio messages keep.
use media_engine.Base.{ℕ, Bool, true, false, List, [], ◌+◌, ◌&&◌, ◌∷◌, ◌==◌}
use media_engine.Base.Bytes.{Bytes}
use media_engine.Rtmp.Header.{Message}
use media_engine.Flv.{
  FlvVideoData, FlvAudioData, Parsed, rejected, parsed, parse_video, parse_audio,
}
use media_engine.Flv
use media_engine.Bitstream.Aac.{parse_aac_config, get_aac_extradata}
use media_engine.Bitstream.Avc.{parse_avc_config, get_avc_extradata}
use media_engine.Session.{
  MediaType, video, audio, MediaTrack, RtmpStream, Environment, Run, pure, returns, Action, ignore,
}
use media_engine.Session.Tracks.{
  get_track, video_track_id, audio_track_id, is_empty, send_frame, set_codec_extradata,
  convert_to_media_sample,
}
use media_engine.Session.Media.{
  parse_sequence_header, video_frame, audio_frame, bad_size, media_frame, stream_coming,
  receive_published, media_type_of, replay_one, replay,
}
use media_engine.Session.Keeping.{
  Ends, parsed-Ends, Keeps, seq-Keeps, ignore-Keeps, if-Ends, option-Ends,
}

-- A predicate that samples keep, and that does not look at the tracks.
module _ (P : RtmpStream → Type 0)
    (sends : (type : MediaType) (dts pts : ℕ) (key : Bool) (bytes : Bytes)
      → Keeps P (send_frame type dts pts key bytes))
    (describes : (st : RtmpStream) (ts : List MediaTrack)
      → P st
      → P (record st { tracks = ts })) where
  convert-Keeps :
      (get_extradata : Bytes → Parsed Bytes) (t : MediaTrack) (is_header : Bool) (dts pts : ℕ)
      (key : Bool) (bytes : Bytes)
      → Keeps P (convert_to_media_sample get_extradata t is_header dts pts key bytes)
  unfolding convert_to_media_sample
  convert-Keeps get_extradata t is_header dts pts key bytes st h =
      let frame = sends t.media_type dts pts key bytes st h in
      if-Ends P (is_header && is_empty t.codec_extradata) _ _
        (λ _.
          parsed-Ends P (get_extradata bytes) (send_frame t.media_type dts pts key bytes st)
            (λ extradata.
              returns false
                (record st { tracks = set_codec_extradata t.track_id extradata st.tracks }))
            frame
            (λ extradata _. describes st (set_codec_extradata t.track_id extradata st.tracks) h))
        (λ _. frame)

  header-Ends :
      {A : Type 0} (b : Bool) (p : Parsed A) (rest : Run Bool)
      → Ends P rest
      → Ends P (parse_sequence_header b p rest)
  unfolding parse_sequence_header
  header-Ends true rejected rest h = h
  header-Ends true Flv.crash rest h = tt
  header-Ends true (parsed a) rest h = h
  header-Ends false p rest h = h

  video_frame-Keeps :
      (env : Environment) (m : Message) (r : Parsed FlvVideoData) → Keeps P (video_frame env m r)
  unfolding video_frame
  video_frame-Keeps env m rejected st h = h
  video_frame-Keeps env m Flv.crash st h = tt
  video_frame-Keeps env m (parsed flv) st h =
      option-Ends P (get_track video_track_id st.tracks) _ _ h (λ t _.
        header-Ends (flv.packet_type == 0) (parse_avc_config flv.payload) _ (
          if-Ends P (flv.packet_type == 2) _ _ (λ _. h)
            (λ _.
              let dts = m.header.completed.timestamp in
              let convert : Action Bool =
                convert_to_media_sample get_avc_extradata t (flv.packet_type == 0) dts
                  (dts + flv.composition_time) (flv.frame_type == 1) flv.payload in
              seq-Keeps {P = P} (ignore convert) (pure true)
                (ignore-Keeps convert (
                  convert-Keeps get_avc_extradata t (flv.packet_type == 0) dts
                    (dts + flv.composition_time) (flv.frame_type == 1) flv.payload))
                (λ _ g. g) st h)))

  audio_frame-Keeps :
      (env : Environment) (m : Message) (r : Parsed FlvAudioData) → Keeps P (audio_frame env m r)
  unfolding audio_frame
  audio_frame-Keeps env m rejected st h = h
  audio_frame-Keeps env m Flv.crash st h = tt
  audio_frame-Keeps env m (parsed flv) st h =
      option-Ends P (get_track audio_track_id st.tracks) _ _ h (λ t _.
        let dts = m.header.completed.timestamp in
        let convert : Action Bool =
          convert_to_media_sample get_aac_extradata t (flv.packet_type == 0) dts dts true
            flv.payload in
        header-Ends (flv.packet_type == 0) (parse_aac_config flv.payload) _ (
          seq-Keeps {P = P} (ignore convert) (pure true)
            (ignore-Keeps convert
              (convert-Keeps get_aac_extradata t (flv.packet_type == 0) dts dts true flv.payload))
            (λ _ g. g) st h))

  pub media_frame-Keeps :
      (env : Environment) (type : MediaType) (m : Message) → Keeps P (media_frame env type m)
  unfolding media_frame
  media_frame-Keeps env video m st h =
      if-Ends P (stream_coming video st) _ _
        (λ _. video_frame-Keeps env m (parse_video m.payload) st h) (λ _. h)
  media_frame-Keeps env audio m st h =
      if-Ends P (stream_coming audio st) _ _
        (λ _. audio_frame-Keeps env m (parse_audio m.payload) st h) (λ _. h)

  published-Keeps :
      (env : Environment) (type : MediaType) (m : Message) → Keeps P (receive_published env type m)
  unfolding receive_published
  published-Keeps env type m st h =
      if-Ends P (bad_size type m) _ _ (λ _. h) (λ _. media_frame-Keeps env type m st h)

  pub replay_one-Keeps : (env : Environment) (m : Message) → Keeps P (replay_one env m)
  unfolding replay_one
  replay_one-Keeps env m st h = option-Ends P (media_type_of m) _ _ h (λ type _.
      if-Ends P (stream_coming type st) _ _
        (λ _. ignore-Keeps {P = P} (receive_published env type m) (published-Keeps env type m) st h)
        (λ _. h))

  pub replay-Keeps : (env : Environment) (ms : List Message) → Keeps P (replay env ms)
  unfolding replay
  replay-Keeps env [] st h = h
  replay-Keeps env (m ∷ ms) st h =
      seq-Keeps {P = P} (replay_one env m) (replay env ms) (replay_one-Keeps env m)
        (replay-Keeps env ms) st h
