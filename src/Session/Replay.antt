-- ===== src/Session/Replay.antt =====
-- Stored messages that are replayed, against messages that come in.
use media_engine.Base.{
  ℕ, refl, sym, ap, inl, inr, Bool, true, false, Option, none, some, List, [], Bool-cases, ◌≡◌, ◌∙◌,
  ◌⊎◌, ◌∷◌, ◌++◌, if◌then◌else◌,
}
use media_engine.Base.Bytes.{Bytes}
use media_engine.Session.{Event, pure, video}
use media_engine.Session.Tracks.{set_track_info}
use media_engine.Session.{Action, ◌>>◌, ignore, modify, tracks_ready, sample}
use media_engine.Session.Tracks.{send_frame, all_described}
use media_engine.Session.Media.{
  replay_one, replay, media_frame, media_type_of, stream_coming, receive_published,
}
use media_engine.Session.Keeping.{Keeps, Ends, if-Ends}
use media_engine.Session.Keeping.Frames.{replay_one-Keeps}
use media_engine.Rtmp.Header.{Message}
use media_engine.Session.{
  MediaType, audio, RtmpStream, Environment, Run, returns, crash, stuck, bind,
}
use media_engine.Session.Media.{bad_size, mark_coming, receive_unpublished, receive_media_message}

module _ (P : RtmpStream → Type 0)
    (frame : (st : RtmpStream) (reported : Bool) (es : List Event)
      → P st
      → P (record st { track_info_sent = reported; events = es })) where
  pub sends :
      (type : MediaType) (dts pts : ℕ) (key : Bool) (bytes : Bytes)
      → Keeps P (send_frame type dts pts key bytes)
  unfolding send_frame
  sends type dts pts key bytes st h =
      if-Ends P st.track_info_sent _ _
        (λ _. frame st st.track_info_sent (st.events ++ (sample type dts pts key bytes ∷ [])) h)
        (λ _.
          if-Ends P (all_described st.tracks) _ _
            (λ _.
              frame st true
                (st.events
                  ++ (tracks_ready st.app_name st.stream_name st.tracks
                      ∷ sample type dts pts key bytes
                      ∷ []))
                h)
            (λ _. h))

-- A stored message handed to the handler of its type once more, and all of them in order.
unfoldable pub receive_again : Environment → Message → Action Unit
unfolding media_type_of receive_media_message
receive_again env m st = elim (media_type_of m) [
  | none ↦ returns tt st
  | some type ↦ ignore (receive_media_message env type m) st
]

unfoldable pub receive_stored : Environment → List Message → Action Unit
unfolding receive_again
receive_stored env [] = pure tt
receive_stored env (m ∷ ms) = receive_again env m >> receive_stored env ms

-- On a published stream, the handler does what a replay does.
published_same :
    (env : Environment) (type : MediaType) (m : Message) (st : RtmpStream)
    → st.published ≡ true
    → receive_media_message env type m st ≡ receive_published env type m st
unfolding receive_media_message receive_published
published_same env type m st published =
    ap
      (λ p.
        if bad_size type m
        then returns false st
        else if p
        then media_frame env type m st
        else receive_unpublished env type m (mark_coming type st))
      published

good_frame :
    (env : Environment) (type : MediaType) (m : Message) (st : RtmpStream)
    → bad_size type m ≡ false
    → receive_published env type m st ≡ media_frame env type m st
unfolding receive_published
good_frame env type m st good = rw good refl

bad_frame :
    (env : Environment) (type : MediaType) (m : Message) (st : RtmpStream)
    → bad_size type m ≡ true
    → receive_published env type m st ≡ returns false st
unfolding receive_published
bad_frame env type m st bad = rw bad refl

-- A message of a stream that is not coming is passed over by either.
passed_over :
    (env : Environment) (type : MediaType) (m : Message) (st : RtmpStream)
    → stream_coming type st ≡ false
    → media_frame env type m st ≡ returns true st
unfolding media_frame
passed_over env video m st e = rw e refl
passed_over env audio m st e = rw e refl

absent_frame :
    (env : Environment) (type : MediaType) (m : Message) (st : RtmpStream)
    → stream_coming type st ≡ false
    → returns tt st ≡ ignore (receive_published env type m) st
unfolding bind
absent_frame env type m st absent = elim (Bool-cases (bad_size type m)) [
  | inl bad ↦ sym (ap (λ (r : Run Bool). bind r (λ _. pure tt)) (bad_frame env type m st bad))
  | inr good ↦ sym (
      ap (λ (r : Run Bool). bind r (λ _. pure tt))
        (good_frame env type m st good ∙ passed_over env type m st absent))
]

again_of :
    (env : Environment) (type : MediaType) (m : Message) (st : RtmpStream)
    → st.published ≡ true
    → (if stream_coming type st then ignore (receive_published env type m) st else returns tt st)
      ≡ ignore (receive_media_message env type m) st
again_of env type m st published =
    with_test (Bool-cases (stream_coming type st))
    ∙ sym (ap (λ (r : Run Bool). bind r (λ _. pure tt)) (published_same env type m st published))
  where
    with_test :
        (stream_coming type st ≡ true) ⊎ (stream_coming type st ≡ false)
        → (if stream_coming type st
            then ignore (receive_published env type m) st
            else returns tt st)
          ≡ ignore (receive_published env type m) st
    with_test (inl coming) = rw coming refl
    with_test (inr absent) = rw absent (absent_frame env type m st absent)

replay_one-again :
    (env : Environment) (m : Message) (st : RtmpStream)
    → st.published ≡ true
    → replay_one env m st ≡ receive_again env m st
unfolding replay_one receive_again
replay_one-again env m st published = of_type (media_type_of m)
  where
    of_type :
        (o : Option MediaType)
        → elim o as (λ _. Run Unit) [
          | none ↦ returns tt st
          | some type ↦
              if stream_coming type st
              then ignore (receive_published env type m) st
              else returns tt st
        ]
          ≡ elim o as (λ _. Run Unit) [
            | none ↦ returns tt st
            | some type ↦ ignore (receive_media_message env type m) st
          ]
    of_type none = refl
    of_type (some type) = again_of env type m st published

abbrev pub IsPublished : RtmpStream → Type 0
IsPublished st = st.published ≡ true

bind-same :
    {A B : Type 0} (r : Run A) (f g : A → Action B)
    → Ends IsPublished r
    → ((a : A) (st : RtmpStream) → IsPublished st → f a st ≡ g a st)
    → bind r f ≡ bind r g
unfolding bind
bind-same (returns a st) f g h k = k a st h
bind-same crash f g h k = refl
bind-same stuck f g h k = absurd h

pub replay-stored :
    (env : Environment) (ms : List Message) (st : RtmpStream)
    → IsPublished st
    → replay env ms st ≡ receive_stored env ms st
unfolding replay receive_stored
replay-stored env [] st h = refl
replay-stored env (m ∷ ms) st h =
    bind-same (replay_one env m st) (λ _. replay env ms) (λ _. receive_stored env ms)
      (replay_one-Keeps IsPublished (sends IsPublished (λ r b es e. e)) (λ r ts e. e) env m st h)
      (λ _ st' h'. replay-stored env ms st' h')
    ∙ ap (λ r. bind r (λ _. receive_stored env ms)) (replay_one-again env m st h)

abbrev pub forget_stored : Action Unit
forget_stored = modify (λ r. record r { stream_message_cache = [] })

-- The state in which `PublishStream` begins to replay.
abbrev pub opened : MediaType → RtmpStream → RtmpStream
opened type st =
    let marked = mark_coming type st in
    record marked { published = true; tracks = set_track_info marked.media_info marked.tracks }

-- The stored messages and then `m`, as if all came in on a stream that is published already.
unfoldable pub as_published : Environment → MediaType → Message → List Message → Action Bool
unfolding receive_stored receive_media_message bind
as_published env type m stored =
    (receive_stored env stored >> forget_stored) >> receive_media_message env type m

pub in_the_end :
    (env : Environment) (type : MediaType) (m : Message) (r : Run Unit)
    → bad_size type m ≡ false
    → Ends IsPublished r
    → bind
        (bind (bind r (λ _. forget_stored)) (λ _. pure true))
        (λ done. if done then media_frame env type m else pure false)
      ≡ bind (bind r (λ _. forget_stored)) (λ _. receive_media_message env type m)
unfolding bind
in_the_end env type m (returns a st) good h =
    let cleared : RtmpStream = record st { stream_message_cache = [] } in
    sym (published_same env type m cleared h ∙ good_frame env type m cleared good)
in_the_end env type m crash good h = refl
in_the_end env type m stuck good h = absurd h
