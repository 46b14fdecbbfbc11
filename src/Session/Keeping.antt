-- ===== src/Session/Keeping.antt =====
-- What the handlers keep: a predicate on the state, and the rules for runs that end in it. A run
-- that is out of fuel ends in nothing.
pub mod Sending
pub mod Frames
pub mod Media
pub mod Commands
pub mod Messages
use media_engine.Base.{
  refl, Bool, true, false, Option, none, some, List, [], ◌≤◌, ◌≡◌, ◌∷◌, if◌then◌else◌,
}
use media_engine.Rtmp.Header.{Message}
use media_engine.Rtmp.ImportChunk.Totality.{CanImport}
use media_engine.Flv.{Parsed, rejected, parsed}
use media_engine.Flv
use media_engine.Session.{
  HandshakeState, uninitialized, s2, complete, Event, tracks_ready, sample, RtmpStream, Run,
  returns, crash, stuck, Action, bind, ◌>>◌, pure, ◌&then◌, ignore,
}

-- Nothing but samples.
abbrev pub AllSamples : List Event → Type 0
AllSamples [] = Unit
AllSamples (tracks_ready app stream ts ∷ es) = ⊥
AllSamples (sample type dts pts key bytes ∷ es) = AllSamples es

-- What the application has heard: nothing before the tracks are reported, and from then on the
-- tracks once, then samples.
abbrev pub Ordered : Bool → List Event → Type 0
Ordered false [] = Unit
Ordered false (e ∷ es) = ⊥
Ordered true [] = ⊥
Ordered true (tracks_ready app stream ts ∷ es) = AllSamples es
Ordered true (sample type dts pts key bytes ∷ es) = ⊥

-- The states of the handshake between two calls.
abbrev pub Settled : HandshakeState → Type 0
Settled uninitialized = Unit
Settled s2 = Unit
Settled complete = Unit
Settled _ = ⊥

-- The invariant of a session: the importer can go on, the traffic that is not acknowledged is
-- within the window, the application has heard of the tracks before any sample, and the handshake
-- is not in the middle of an answer.
abbrev pub Sound : RtmpStream → Type 0
Sound st =
    CanImport st.import_chunk
    × (st.acknowledgement_traffic ≤ st.acknowledgement_size)
    × Ordered st.track_info_sent st.events
    × Settled st.handshake_state

-- The invariant where the importer holds the messages `queue`.
abbrev pub Good : List Message → RtmpStream → Type 0
Good queue st =
    (st.import_chunk.message_queue ≡ queue)
    × CanImport st.import_chunk
    × (st.acknowledgement_traffic ≤ st.acknowledgement_size)
    × Ordered st.track_info_sent st.events
    × Settled st.handshake_state

-- What a run comes to, its value and its state.
abbrev pub Yields : {A : Type 0} → (A → RtmpStream → Type 0) → Run A → Type 0
Yields Q (returns a st) = Q a st
Yields Q crash = Unit
Yields Q stuck = ⊥

abbrev pub Ends : {A : Type 0} → (RtmpStream → Type 0) → Run A → Type 0
Ends P r = Yields (λ _. P) r

-- The run of two actions, one behind the other.
pub bind-Yields :
    {A B : Type 0} (Q : A → RtmpStream → Type 0) (R : B → RtmpStream → Type 0) (r : Run A)
    (f : A → Action B)
    → Yields Q r
    → ((a : A) (st : RtmpStream) → Q a st → Yields R (f a st))
    → Yields R (bind r f)
unfolding bind
bind-Yields Q R (returns a st) f h k = k a st h
bind-Yields Q R crash f h k = tt
bind-Yields Q R stuck f h k = absurd h

abbrev pub Keeps : {A : Type 0} → (RtmpStream → Type 0) → Action A → Type 0
Keeps P m = (st : RtmpStream) → P st → Ends P (m st)

module _ {P : RtmpStream → Type 0} where
  pub bind-Ends :
      {A B : Type 0} (r : Run A) (f : A → Action B)
      → Ends P r
      → ((a : A) → Keeps P (f a))
      → Ends P (bind r f)
  bind-Ends r f h k = bind-Yields (λ _. P) (λ _. P) r f h k

  pub seq-Keeps :
      {A B : Type 0} (m : Action A) (k : Action B) → Keeps P m → Keeps P k → Keeps P (m >> k)
  seq-Keeps m k hm hk st h = bind-Ends (m st) (λ _. k) (hm st h) (λ _. hk)

  if-Keeps : (k : Action Bool) (b : Bool) → Keeps P k → Keeps P (if b then k else pure false)
  if-Keeps k true hk st h = hk st h
  if-Keeps k false hk st h = h

  pub then-Keeps : (m k : Action Bool) → Keeps P m → Keeps P k → Keeps P (m &then k)
  then-Keeps m k hm hk st h =
      bind-Ends (m st) (λ done. if done then k else pure false) (hm st h) (λ b. if-Keeps k b hk)

  pub ignore-Keeps : {A : Type 0} (m : Action A) → Keeps P m → Keeps P (ignore m)
  ignore-Keeps m hm = seq-Keeps m (pure tt) hm (λ st h. h)

-- A test, whose result each branch may use.
pub if-Yields :
    {A : Type 0} (Q : A → RtmpStream → Type 0) (b : Bool) (r s : Run A)
    → ((b ≡ true) → Yields Q r)
    → ((b ≡ false) → Yields Q s)
    → Yields Q (if b then r else s)
if-Yields Q true r s h k = h refl
if-Yields Q false r s h k = k refl

pub if-Ends :
    {A : Type 0} (P : RtmpStream → Type 0) (b : Bool) (r s : Run A)
    → ((b ≡ true) → Ends P r)
    → ((b ≡ false) → Ends P s)
    → Ends P (if b then r else s)
if-Ends P = if-Yields (λ _. P)

pub option-Ends :
    {A B : Type 0} (P : RtmpStream → Type 0) (o : Option B) (r : Run A) (s : B → Run A)
    → Ends P r
    → ((b : B) → (o ≡ some b) → Ends P (s b))
    → Ends P (elim o [ none ↦ r | some b ↦ s b ])
option-Ends P none r s h k = h
option-Ends P (some b) r s h k = k b refl

pub parsed-Ends :
    {A B : Type 0} (P : RtmpStream → Type 0) (p : Parsed B) (other : Run A) (s : B → Run A)
    → Ends P other
    → ((b : B) → (p ≡ parsed b) → Ends P (s b))
    → Ends P (elim p [ parsed b ↦ s b | rejected ↦ other | Flv.crash ↦ crash ])
parsed-Ends P rejected other s h k = h
parsed-Ends P Flv.crash other s h k = tt
parsed-Ends P (parsed b) other s h k = k b refl
