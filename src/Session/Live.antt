-- ===== src/Session/Live.antt =====
-- What a message comes to that publishes a stream.
use media_engine.Base.{refl, ap, Bool, true, false, [], ◌≡◌, ◌∙◌, if◌then◌else◌}
use media_engine.Session.{pure, video}
use media_engine.Session.Tracks.{is_empty, set_track_info}
use media_engine.Session.Media.{publish_stream}
use media_engine.Session.{Action, modify}
use media_engine.Session.Media.{replay, media_frame}
use media_engine.Session.Keeping.{Ends, Yields, bind-Yields, if-Ends, if-Yields}
use media_engine.Session.Keeping.Frames.{media_frame-Keeps, replay-Keeps}
use media_engine.Rtmp.Header.{Message}
use media_engine.Session.{MediaType, audio, RtmpStream, Environment, Run, returns, bind}
use media_engine.Session.Media.{
  bad_size, check_ready_to_publish, mark_coming, store_message, receive_unpublished,
  receive_media_message,
}
use media_engine.Session.Publishing.{contradiction}
use media_engine.Session.Replay.{
  sends, IsPublished, replay-stored, forget_stored, opened, as_published, in_the_end,
}

-- A stream that is published and stores no messages.
abbrev pub IsLive : RtmpStream → Type 0
IsLive st = (st.published ≡ true) × (st.stream_message_cache ≡ [])

-- What `PublishStream` returns on a stream with a name.
abbrev pub Published : Bool → RtmpStream → Type 0
Published done st = (done ≡ true) × IsLive st

publish-Published :
    (env : Environment) (st : RtmpStream)
    → is_empty st.stream_name ≡ false
    → Yields Published (publish_stream env st)
unfolding publish_stream bind
publish-Published env st named =
    let listed : RtmpStream = record st {
      published = true;
      tracks = set_track_info st.media_info st.tracks;
    } in
    let clear : Action Unit = modify (λ r. record r { stream_message_cache = [] }) in
    let replayed : Run Unit = replay env st.stream_message_cache listed in
    if-Yields Published (is_empty st.stream_name) _ _
      (λ e. contradiction (is_empty st.stream_name) e named)
      (λ _.
        bind-Yields (λ _. IsLive) Published (bind replayed (λ _. clear)) (λ _. pure true)
          (bind-Yields (λ _ r. r.published ≡ true) (λ _. IsLive) replayed (λ _. clear)
            (replay-Keeps (λ r. r.published ≡ true)
              (sends (λ r. r.published ≡ true) (λ r b es h. h)) (λ r ts h. h) env
              st.stream_message_cache listed refl)
            (λ _ r h. (h, refl)))
          (λ _ r h. (refl, h)))

IsLive-frame :
    (env : Environment) (type : MediaType) (m : Message) (done : Bool) (st : RtmpStream)
    → Published done st
    → Ends IsLive ((if done then media_frame env type m else pure false) st)
IsLive-frame env type m true st (e, live) =
    media_frame-Keeps IsLive (sends IsLive (λ r b es h. h)) (λ r ts h. h) env type m st live
IsLive-frame env type m false st (e, live) = live

named_still :
    (type : MediaType) (st : RtmpStream)
    → is_empty st.stream_name ≡ false
    → is_empty (mark_coming type st).stream_name ≡ false
unfolding mark_coming
named_still video st h = h
named_still audio st h = h

-- The way of a message to `PublishStream`.
to_publish :
    (env : Environment) (type : MediaType) (m : Message) (st : RtmpStream)
    → bad_size type m ≡ false
    → st.published ≡ false
    → check_ready_to_publish (mark_coming type st) ≡ true
    → receive_media_message env type m st
      ≡ bind
          (publish_stream env (mark_coming type st))
          (λ done. if done then media_frame env type m else pure false)
unfolding receive_media_message receive_unpublished
to_publish env type m st good unpublished ready =
    let marked = mark_coming type st in
    let published : Run Bool =
      bind (publish_stream env marked)
        (λ done. if done then media_frame env type m else pure false) in
    ap
      (λ b.
        if b
        then returns false st
        else if st.published
        then media_frame env type m st
        else receive_unpublished env type m marked)
      good
    ∙ ap (λ b. if b then media_frame env type m st else receive_unpublished env type m marked)
        unpublished
    ∙ ap (λ b. if b then published else store_message m marked) ready

publish_named :
    (env : Environment) (type : MediaType) (st : RtmpStream)
    → is_empty (mark_coming type st).stream_name ≡ false
    → publish_stream env (mark_coming type st)
      ≡ bind
          (bind
            (replay env (mark_coming type st).stream_message_cache (opened type st))
            (λ _. forget_stored))
          (λ _. pure true)
unfolding publish_stream
publish_named env type st named =
    let marked = mark_coming type st in
    ap
      (λ b.
        if b
        then returns false (record marked { published = true })
        else bind
            (bind (replay env marked.stream_message_cache (opened type st)) (λ _. forget_stored))
            (λ _. pure true))
      named

-- A video or audio message of a valid size publishes a stream that has a name and is ready: when
-- both kinds have come, or more than 50 stored messages are counted for the one kind that has. It
-- comes to what it would come to if the stream, marked as published and with its tracks added,
-- received the stored messages in their order, each by the handler of its type, and then, with
-- nothing stored, the message itself. From then on the stream is published and stores nothing,
-- unless the process was stopped on the way.
pub media_message-IsLive :
    (env : Environment) (type : MediaType) (m : Message) (st : RtmpStream)
    → bad_size type m ≡ false
    → st.published ≡ false
    → is_empty st.stream_name ≡ false
    → check_ready_to_publish (mark_coming type st) ≡ true
    → (receive_media_message env type m st
        ≡ as_published env type m (mark_coming type st).stream_message_cache (opened type st))
      × Ends IsLive (receive_media_message env type m st)
unfolding receive_media_message receive_unpublished as_published
media_message-IsLive env type m st good unpublished named ready =
    let marked = mark_coming type st in
    let stored = marked.stream_message_cache in
    let replay_ends =
      replay-Keeps IsPublished (sends IsPublished (λ r b es e. e)) (λ r ts e. e) env stored
        (opened type st) refl in
    (
      to_publish env type m st good unpublished ready
          ∙ ap
              (λ (r : Run Bool).
                bind r (λ done. if done then media_frame env type m else pure false))
              (publish_named env type st (named_still type st named))
          ∙ in_the_end env type m (replay env stored (opened type st)) good replay_ends
          ∙ ap
              (λ (r : Run Unit).
                bind (bind r (λ _. forget_stored)) (λ _. receive_media_message env type m))
              (replay-stored env stored (opened type st) refl),
      if-Ends IsLive (bad_size type m) _ _ (λ e. contradiction (bad_size type m) e good)
          (λ _.
            if-Ends IsLive st.published _ _ (λ e. contradiction st.published e unpublished)
              (λ _.
                if-Ends IsLive (check_ready_to_publish marked) _ _
                  (λ _.
                    bind-Yields Published (λ _. IsLive) (publish_stream env marked)
                      (λ done. if done then media_frame env type m else pure false)
                      (publish-Published env marked (named_still type st named))
                      (IsLive-frame env type m))
                  (λ e. contradiction (check_ready_to_publish marked) ready e))),
    )
