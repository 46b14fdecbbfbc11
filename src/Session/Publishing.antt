-- ===== src/Session/Publishing.antt =====
-- When a stream is published.
use media_engine.Base.{refl, Bool, true, false, List, [], arith, ◌≡◌, ◌∷◌, if◌then◌else◌}
use media_engine.Rtmp.Header.{Message}
use media_engine.Session.{
  MediaType, audio, RtmpStream, Environment, Run, returns, crash, stuck, bind,
}
use media_engine.Session.Media.{
  bad_size, check_ready_to_publish, mark_coming, store_message, receive_unpublished,
  receive_media_message,
}

-- A stream on which only audio has come.
abbrev pub OnlyAudio : RtmpStream → Type 0
OnlyAudio st =
    (st.published ≡ false)
    × (st.media_info.video_stream_coming ≡ false)
    × (st.stream_message_cache_audio_count ≡ 0)

-- The messages, one behind the other, whatever each comes to.
unfoldable pub receive_all : Environment → MediaType → List Message → RtmpStream → Run Unit
unfolding bind receive_media_message
receive_all env type [] st = returns tt st
receive_all env type (m ∷ ms) st =
    bind (receive_media_message env type m st) (λ _. receive_all env type ms)

-- A run that leaves a stream with only audio.
abbrev pub StaysAudio : {A : Type 0} → Run A → Type 0
StaysAudio (returns a st) = OnlyAudio st
StaysAudio crash = ⊥
StaysAudio stuck = ⊥

if-StaysAudio :
    {A : Type 0} (b : Bool) (r s : Run A)
    → ((b ≡ true) → StaysAudio r)
    → ((b ≡ false) → StaysAudio s)
    → StaysAudio (if b then r else s)
if-StaysAudio true r s h k = h refl
if-StaysAudio false r s h k = k refl

bind-StaysAudio :
    {A B : Type 0} (r : Run A) (f : A → RtmpStream → Run B)
    → StaysAudio r
    → ((a : A) (st : RtmpStream) → OnlyAudio st → StaysAudio (f a st))
    → StaysAudio (bind r f)
unfolding bind
bind-StaysAudio (returns a st) f h k = k a st h
bind-StaysAudio crash f h k = absurd h
bind-StaysAudio stuck f h k = absurd h

pub contradiction {ℓ} : {A : Type ℓ} (b : Bool) → b ≡ true → b ≡ false → A
contradiction true e f = ground arith
contradiction false e f = ground arith

not_ready : (st : RtmpStream) → OnlyAudio st → check_ready_to_publish (mark_coming audio st) ≡ false
unfolding check_ready_to_publish mark_coming
not_ready st (p, v, a) = rw (v, a)

stored :
    (env : Environment) (m : Message) (st : RtmpStream)
    → OnlyAudio st
    → StaysAudio (receive_unpublished env audio m (mark_coming audio st))
unfolding receive_unpublished store_message mark_coming
stored env m st h = rw (not_ready st h) h

-- A session to which only audio comes is never published, however many messages of whatever content
-- there are: either kind counts its stored messages as video, so that the count of the audio
-- messages stays 0 and the rule for a stream without video, more than 50 of them, never applies.
pub audio_only-OnlyAudio :
    (env : Environment) (ms : List Message) (st : RtmpStream)
    → OnlyAudio st
    → StaysAudio (receive_all env audio ms st)
unfolding receive_all receive_media_message
audio_only-OnlyAudio env [] st h = h
audio_only-OnlyAudio env (m ∷ ms) st h =
    bind-StaysAudio (receive_media_message env audio m st) (λ _. receive_all env audio ms)
      (if-StaysAudio (bad_size audio m) _ _ (λ _. h)
        (λ _.
          if-StaysAudio st.published _ _ (λ e. contradiction st.published e h.0)
            (λ _. stored env m st h)))
      (λ _ st' h'. audio_only-OnlyAudio env ms st' h')
