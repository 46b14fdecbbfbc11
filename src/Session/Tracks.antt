-- ===== src/Session/Tracks.antt =====
-- Tracks and samples in rtmp_stream.cpp: `AddTrack`, `GetTrack`, `SetTrackInfo`,
-- `ConvertToSnyMediaSample` and `SendFrame`.
use media_engine.Base.{
  ℕ, Bool, true, false, Option, none, some, List, [], ltb, ◌*◌, ◌%◌, ◌^◌, ◌&&◌, ◌∷◌, ◌++◌, ◌==◌,
  if◌then◌else◌,
}
use media_engine.Base.Bytes.{Bytes}
use media_engine.Flv.{Parsed, rejected, crash, parsed}
use media_engine.Session
use media_engine.Session.{
  MediaInfo, MediaType, video, audio, MediaTrack, tracks_ready, sample, returns, Action,
}

abbrev pub video_track_id : ℕ
video_track_id = 0

abbrev pub audio_track_id : ℕ
audio_track_id = 1

-- `GetTrack`
unfoldable pub get_track : ℕ → List MediaTrack → Option MediaTrack
get_track id [] = none
get_track id (t ∷ ts) = let rest = get_track id ts in if t.track_id == id then some t else rest

-- `AddTrack`: `insert` leaves a track that is there; a map is sorted by its keys.
unfoldable pub add_track : MediaTrack → List MediaTrack → List MediaTrack
add_track t [] = t ∷ []
add_track t (u ∷ us) =
    let rest = add_track t us in
    if t.track_id == u.track_id
    then u ∷ us
    else if ltb t.track_id u.track_id
    then t ∷ u ∷ us
    else u ∷ rest

-- `SetCodecExtradata` on the track of the map.
unfoldable pub set_codec_extradata : ℕ → Bytes → List MediaTrack → List MediaTrack
set_codec_extradata id extradata [] = []
set_codec_extradata id extradata (t ∷ ts) =
    let rest = set_codec_extradata id extradata ts in
    if t.track_id == id then record t { codec_extradata = extradata } ∷ ts else t ∷ rest

unfoldable pub is_empty {ℓ} : {A : Type ℓ} → List A → Bool
is_empty [] = true
is_empty (x ∷ xs) = false

-- Whether no track's extradata is empty.
unfoldable pub all_described : List MediaTrack → Bool
unfolding is_empty
all_described [] = true
all_described (t ∷ ts) =
    let rest = all_described ts in if is_empty t.codec_extradata then false else rest

-- `SendFrame`: the tracks are reported first, and no sample before them.
unfoldable pub send_frame : MediaType → ℕ → ℕ → Bool → Bytes → Action Bool
unfolding all_described
send_frame type dts pts key bytes st =
    if st.track_info_sent
    then returns true (record st { events = st.events ++ (sample type dts pts key bytes ∷ []) })
    else if all_described st.tracks
    then returns true (record st {
      track_info_sent = true;
      events =
          st.events
          ++ (tracks_ready st.app_name st.stream_name st.tracks
              ∷ sample type dts pts key bytes
              ∷ []);
    })
    else returns true st

-- `ConvertToSnyMediaSample`: the first sequence header that parses becomes the track's extradata.
unfoldable pub convert_to_media_sample :
    (Bytes → Parsed Bytes) → MediaTrack → Bool → ℕ → ℕ → Bool → Bytes → Action Bool
unfolding is_empty set_codec_extradata send_frame
convert_to_media_sample get_extradata t is_header dts pts key bytes st =
    if is_header && is_empty t.codec_extradata
    then elim (get_extradata bytes) [
      | parsed extradata ↦
          returns false (record st { tracks = set_codec_extradata t.track_id extradata st.tracks })
      | rejected ↦ send_frame t.media_type dts pts key bytes st
      | crash ↦ Session.crash
    ]
    else send_frame t.media_type dts pts key bytes st

-- `SetTrackInfo`
unfoldable pub video_track : MediaInfo → MediaTrack
video_track info = record {
  track_id = video_track_id;
  media_type = video;
  width = info.video_width;
  height = info.video_height;
  frame_rate = info.video_framerate;
  sample_rate = 0;
  channels = 0;
  bitrate = info.video_bitrate * 1000 % 2 ^ 32;
  codec_extradata = [];
}

unfoldable pub audio_track : MediaInfo → MediaTrack
audio_track info = record {
  track_id = audio_track_id;
  media_type = audio;
  width = 0;
  height = 0;
  frame_rate = 0;
  sample_rate = info.audio_samplerate;
  channels = if info.audio_channels == 1 then 1 else if info.audio_channels == 2 then 2 else 0;
  bitrate = info.audio_bitrate * 1000 % 2 ^ 32;
  codec_extradata = [];
}

unfoldable pub set_track_info : MediaInfo → List MediaTrack → List MediaTrack
unfolding add_track video_track audio_track
set_track_info info ts =
    let with_video = if info.video_stream_coming then add_track (video_track info) ts else ts in
    if info.audio_stream_coming then add_track (audio_track info) with_video else with_video
