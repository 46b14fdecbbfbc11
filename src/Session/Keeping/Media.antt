-- ===== src/Session/Keeping/Media.antt =====
-- Video and audio messages keep the invariant.
use media_engine.Base.{ℕ, Bool, true, false, List, [], arith, ◌≡◌, ◌∷◌, ◌++◌, if◌then◌else◌}
use media_engine.Base.Bytes.{Bytes}
use media_engine.Rtmp.Header.{Message}
use media_engine.Session.{
  MediaType, video, audio, MediaTrack, Event, tracks_ready, sample, RtmpStream, Environment, pure,
  modify, Action, ◌>>◌,
}
use media_engine.Session.Tracks.{is_empty, all_described, send_frame, set_track_info}
use media_engine.Session.Media.{
  bad_size, media_frame, mark_coming, replay, publish_stream, store_message, check_ready_to_publish,
  receive_unpublished, receive_media_message,
}
use media_engine.Session.Keeping.{AllSamples, Ordered, Good, Keeps, bind-Ends, seq-Keeps, if-Ends}
use media_engine.Session.Keeping.Frames.{media_frame-Keeps, replay-Keeps}

-- A sample more.
AllSamples-snoc :
    (es : List Event) (type : MediaType) (dts pts : ℕ) (key : Bool) (bytes : Bytes)
    → AllSamples es
    → AllSamples (es ++ (sample type dts pts key bytes ∷ []))
AllSamples-snoc [] type dts pts key bytes h = tt
AllSamples-snoc (tracks_ready app stream ts ∷ es) type dts pts key bytes h = h
AllSamples-snoc (sample t d p k b ∷ es) type dts pts key bytes h =
    AllSamples-snoc es type dts pts key bytes h

Ordered-snoc :
    (reported : Bool) (es : List Event) (type : MediaType) (dts pts : ℕ) (key : Bool)
    (bytes : Bytes)
    → reported ≡ true
    → Ordered reported es
    → Ordered reported (es ++ (sample type dts pts key bytes ∷ []))
Ordered-snoc false es type dts pts key bytes e h = ground arith
Ordered-snoc true [] type dts pts key bytes e h = absurd h
Ordered-snoc true (tracks_ready app stream ts ∷ es) type dts pts key bytes e h =
    AllSamples-snoc es type dts pts key bytes h
Ordered-snoc true (sample t d p k b ∷ es) type dts pts key bytes e h = absurd h

-- The tracks and the first sample.
Ordered-start :
    (reported : Bool) (es : List Event) (app stream : Bytes) (ts : List MediaTrack)
    (type : MediaType) (dts pts : ℕ) (key : Bool) (bytes : Bytes)
    → reported ≡ false
    → Ordered reported es
    → Ordered true (es ++ (tracks_ready app stream ts ∷ sample type dts pts key bytes ∷ []))
Ordered-start true es app stream ts type dts pts key bytes e h = ground arith
Ordered-start false [] app stream ts type dts pts key bytes e h = tt
Ordered-start false (f ∷ es) app stream ts type dts pts key bytes e h = absurd h

module _ {queue : List Message} where
  send_frame-Keeps :
      (type : MediaType) (dts pts : ℕ) (key : Bool) (bytes : Bytes)
      → Keeps (Good queue) (send_frame type dts pts key bytes)
  unfolding send_frame
  send_frame-Keeps type dts pts key bytes st (q, can, window, ordered, settled) =
      if-Ends (Good queue) st.track_info_sent _ _
        (λ e. (
          q,
          can,
          window,
          Ordered-snoc st.track_info_sent st.events type dts pts key bytes e ordered,
          settled,
        ))
        (λ e.
          if-Ends (Good queue) (all_described st.tracks) _ _
            (λ _. (
              q,
              can,
              window,
              Ordered-start st.track_info_sent st.events st.app_name st.stream_name st.tracks type
                  dts pts key bytes e ordered,
              settled,
            ))
            (λ _. (q, can, window, ordered, settled)))

  Good-frames :
      (env : Environment) (type : MediaType) (m : Message)
      → Keeps (Good queue) (media_frame env type m)
  Good-frames = media_frame-Keeps (Good queue) send_frame-Keeps (λ st ts h. h)

  publish-Keeps : (env : Environment) → Keeps (Good queue) (publish_stream env)
  unfolding publish_stream
  publish-Keeps env st h =
      if-Ends (Good queue) (is_empty st.stream_name) _ _ (λ _. h)
        (λ _.
          let clear : Action Unit = modify (λ r. record r { stream_message_cache = [] }) in
          seq-Keeps {P = Good queue} (replay env st.stream_message_cache >> clear) (pure true)
            (seq-Keeps (replay env st.stream_message_cache) clear
              (replay-Keeps (Good queue) send_frame-Keeps (λ r ts g. g) env st.stream_message_cache)
              (λ _ g. g))
            (λ _ g. g)
            (record st { published = true; tracks = set_track_info st.media_info st.tracks }) h)

  if_published :
      (env : Environment) (type : MediaType) (m : Message) (done : Bool)
      → Keeps (Good queue) (if done then media_frame env type m else pure false)
  if_published env type m true st h = Good-frames env type m st h
  if_published env type m false st h = h

  unpublished-Keeps :
      (env : Environment) (type : MediaType) (m : Message)
      → Keeps (Good queue) (receive_unpublished env type m)
  unfolding receive_unpublished store_message
  unpublished-Keeps env type m st h =
      if-Ends (Good queue) (check_ready_to_publish st) _ _
        (λ _.
          bind-Ends {P = Good queue} (publish_stream env st)
            (λ done. if done then media_frame env type m else pure false) (publish-Keeps env st h)
            (if_published env type m))
        (λ _. h)

  mark-Good :
      (type : MediaType) (st : RtmpStream) → Good queue st → Good queue (mark_coming type st)
  unfolding mark_coming
  mark-Good video st h = h
  mark-Good audio st h = h

  pub media_message-Keeps :
      (env : Environment) (type : MediaType) (m : Message)
      → Keeps (Good queue) (receive_media_message env type m)
  unfolding receive_media_message
  media_message-Keeps env type m st h =
      if-Ends (Good queue) (bad_size type m) _ _ (λ _. h)
        (λ _.
          if-Ends (Good queue) st.published _ _ (λ _. Good-frames env type m st h)
            (λ _. unpublished-Keeps env type m (mark_coming type st) (mark-Good type st h)))
