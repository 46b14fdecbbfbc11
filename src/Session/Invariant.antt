-- ===== src/Session/Invariant.antt =====
-- The invariant of a session, kept by all that it receives; and its loops come to an end.
use media_engine.Base.{
  ℕ, zero, suc, refl, Bool, true, false, not, none, some, [], arith, ltb, length, drop, length-drop,
  ◌+◌, ◌%◌, ◌^◌, ◌≤◌, ◌<◌, ◌≡◌, ◌∷◌, ◌++◌, ◌==◌, if◌then◌else◌,
}
use media_engine.Base.Bytes.{Bytes}
use mathlib.Core.Path.{subst}
use media_engine.Rtmp.ImportChunk.{ImportChunk, ImportReturn, used, error, import}
use media_engine.Rtmp.ImportChunk
use media_engine.Rtmp.ImportChunk.Totality.{CanImport, Imported, import-Imported}
use media_engine.Rtmp.Handshake.{packet_size, byte_at}
use media_engine.Session.{
  HandshakeState, uninitialized, c0, c1, s0, s1, s2, complete, RtmpStream, new_rtmp_stream,
  Environment, Run, returns, Action, bind, ◌>>=◌, ◌>>◌, pure, modify, ignore,
}
use media_engine.Session.Send.{send_data, send_handshake, send_acknowledgement_size}
use media_engine.Session.Receive.{
  Taken, receive_c0_c1, receive_c2, receive_handshake_in, receive_handshake_packet,
  receive_chunk_message, after_import, add_taken, chunk_loop, acknowledge, receive_chunk_packet,
  is_complete, receive_packet, cut_remained, packet_loop, on_data,
}
use media_engine.Session.Keeping.{
  Ordered, Settled, Sound, Yields, Ends, bind-Yields, ignore-Keeps, if-Yields,
}
use media_engine.Session.Keeping.Sending.{acknowledgement-Keeps}
use media_engine.Session.Keeping.Messages.{chunk_message-Sound}

-- What a call took is no more than there was.
abbrev pub Fits : ℕ → Taken → Type 0
Fits total none = Unit
Fits total (some n) = n ≤ total

abbrev pub Took : ℕ → Taken → RtmpStream → Type 0
Took total taken st = Sound st × Fits total taken

-- The rounds behind one that took `n` bytes.
abbrev AgainTook : (ℕ → Action Taken) → ℕ → Type 0
AgainTook again total =
    (n : ℕ) (st : RtmpStream) → 0 < n → n ≤ total → Sound st → Yields (Took total) (again n st)

if_handled :
    (again : ℕ → Action Taken) (total n : ℕ) (handled : Bool) (st : RtmpStream)
    → AgainTook again total
    → n < total
    → Sound st
    → Yields (Took total) ((if handled then again (suc n) else pure none) st)
if_handled again total n true st k le h = k (suc n) st (omega arith) (omega arith) h
if_handled again total n false st k le h = (h, tt)

after_import-Took :
    (again : ℕ → Action Taken) (env : Environment) (total : ℕ) (c : ImportChunk) (r : ImportReturn)
    (st : RtmpStream)
    → AgainTook again total
    → Imported total (c, r)
    → Sound st
    → Yields (Took total) (after_import again env r (record st { import_chunk = c }))
unfolding after_import
after_import-Took again env total c (used zero done) st k (can, le)
      (old, window, ordered, settled) =
    ((can, window, ordered, settled), omega arith)
after_import-Took again env total c (used (suc n) true) st k (can, le)
      (old, window, ordered, settled) =
    bind-Yields (λ _. Sound) (Took total)
      (receive_chunk_message env (record st { import_chunk = c }))
      (λ handled. if handled then again (suc n) else pure none)
      (chunk_message-Sound env (record st { import_chunk = c }) (can, window, ordered, settled))
      (λ handled st' h. if_handled again total n handled st' k (omega arith) h)
after_import-Took again env total c (used (suc n) false) st k (can, le)
      (old, window, ordered, settled) =
    k (suc n) (record st { import_chunk = c }) (omega arith) le (can, window, ordered, settled)
after_import-Took again env total c error st k can (old, window, ordered, settled) =
    ((can, window, ordered, settled), tt)
after_import-Took again env total c ImportChunk.crash st k bad h = tt
after_import-Took again env total c ImportChunk.stuck st k bad h = absurd bad

add_taken-Fits :
    (total n left : ℕ) (taken : Taken)
    → left + n ≤ total
    → Fits left taken
    → Fits total (add_taken n taken)
unfolding add_taken
add_taken-Fits total n left none le h = tt
add_taken-Fits total n left (some k) le h = omega arith

chunk_loop-Took :
    (env : Environment) (fuel : ℕ) (bytes : Bytes) (st : RtmpStream)
    → length bytes < fuel
    → Sound st
    → Yields (Took (length bytes)) (chunk_loop fuel env bytes st)
unfolding chunk_loop
chunk_loop-Took env zero bytes st hf h = elim hf [ ]
chunk_loop-Took env (suc fuel) [] st hf h = (h, omega arith)
chunk_loop-Took env (suc fuel) (b ∷ s) st hf h =
    let imported = import st.import_chunk (b ∷ s) in
    after_import-Took (λ n. chunk_loop fuel env (drop n (b ∷ s)) >>= (λ k. pure (add_taken n k)))
      env (suc (length s)) imported.0 imported.1 st
      (λ n st' pos le h'.
        bind-Yields (Took (length (drop n (b ∷ s)))) (Took (suc (length s)))
          (chunk_loop fuel env (drop n (b ∷ s)) st') (λ k. pure (add_taken n k))
          (chunk_loop-Took env fuel (drop n (b ∷ s)) st' (omega (arith, length-drop n (b ∷ s))) h')
          (λ k st'' r. (
            r.0,
            add_taken-Fits (suc (length s)) n (length (drop n (b ∷ s))) k
                (omega (arith, length-drop n (b ∷ s))) r.1,
          )))
      (import-Imported st.import_chunk (b ∷ s) h.0) h

-- The invariant but for the window.
abbrev Unacknowledged : RtmpStream → Type 0
Unacknowledged st =
    CanImport st.import_chunk × Ordered st.track_info_sent st.events × Settled st.handshake_state

reset-Sound :
    (st : RtmpStream) → Unacknowledged st → Sound (record st { acknowledgement_traffic = 0 })
reset-Sound st (can, ordered, settled) = (can, omega arith, ordered, settled)

within : (a b : ℕ) → ltb a b ≡ false → b ≤ a
within a b h = ground arith

acknowledge-Took :
    (total : ℕ) (taken : Taken) (st : RtmpStream)
    → Sound st
    → Fits total taken
    → Yields (Took total) (acknowledge taken st)
unfolding acknowledge
acknowledge-Took total none st h fits = (h, tt)
acknowledge-Took total (some n) st (can, window, ordered, settled) fits =
    let traffic = (st.acknowledgement_traffic + n) % 2 ^ 32 in
    let counted : RtmpStream = record st { acknowledgement_traffic = traffic } in
    let finish : Action Taken =
      modify (λ r. record r { acknowledgement_traffic = 0 }) >> pure (some n) in
    if-Yields (Took total) (ltb st.acknowledgement_size traffic) _ _
      (λ _.
        bind-Yields (λ _. Unacknowledged) (Took total)
          (ignore (send_acknowledgement_size traffic) counted) (λ _. finish)
          (ignore-Keeps {P = Unacknowledged} (send_acknowledgement_size traffic)
            (acknowledgement-Keeps Unacknowledged (λ r c packets g. g) traffic) counted
            (can, ordered, settled))
          (λ _ r g. (reset-Sound r g, fits)))
      (λ e. ((can, within st.acknowledgement_size traffic e, ordered, settled), fits))

chunk_packet-Took :
    (env : Environment) (bytes : Bytes) (st : RtmpStream)
    → Sound st
    → Yields (Took (length bytes)) (receive_chunk_packet env bytes st)
unfolding receive_chunk_packet
chunk_packet-Took env bytes st h =
    bind-Yields (Took (length bytes)) (Took (length bytes))
      (chunk_loop (suc (length bytes)) env bytes st) (λ taken. acknowledge taken)
      (chunk_loop-Took env (suc (length bytes)) bytes st (omega arith) h)
      (λ taken st' r. acknowledge-Took (length bytes) taken st' r.0 r.1)

c0_c1-Took :
    (env : Environment) (bytes : Bytes) (st : RtmpStream)
    → Sound st
    → Yields (Took (length bytes)) (receive_c0_c1 env bytes st)
unfolding receive_c0_c1 bind send_handshake send_data
c0_c1-Took env bytes st (can, window, ordered, settled) =
    if-Yields (Took (length bytes)) (ltb (length bytes) (1 + packet_size)) _ _
      (λ _. ((can, window, ordered, settled), omega arith))
      (λ e.
        if-Yields (Took (length bytes)) (not (byte_at bytes 0 == 3)) _ _
          (λ _. ((can, window, ordered, settled), tt))
          (λ _. ((can, window, ordered, tt), within (length bytes) (1 + packet_size) e)))

c2-Took :
    (bytes : Bytes) (st : RtmpStream)
    → Sound st
    → Yields (Took (length bytes)) (receive_c2 bytes st)
unfolding receive_c2
c2-Took bytes st (can, window, ordered, settled) =
    if-Yields (Took (length bytes)) (ltb (length bytes) packet_size) _ _
      (λ _. ((can, window, ordered, settled), omega arith))
      (λ e. ((can, window, ordered, tt), within (length bytes) packet_size e))

handshake_in-Took :
    (state : HandshakeState) (env : Environment) (bytes : Bytes) (st : RtmpStream)
    → Sound st
    → Yields (Took (length bytes)) (receive_handshake_in state env bytes st)
unfolding receive_handshake_in
handshake_in-Took uninitialized env bytes st h = c0_c1-Took env bytes st h
handshake_in-Took c0 env bytes st h = (h, tt)
handshake_in-Took c1 env bytes st h = (h, tt)
handshake_in-Took s0 env bytes st h = (h, tt)
handshake_in-Took s1 env bytes st h = (h, tt)
handshake_in-Took s2 env bytes st h = c2-Took bytes st h
handshake_in-Took complete env bytes st h = (h, tt)

-- `ReceiveChunkPacket` or `ReceiveHandshakePacket`, whichever the state calls for, comes to an end
-- in a state of the invariant, unless it stops the process; and it takes no more bytes than there
-- are.
pub receive_packet-Took :
    (env : Environment) (bytes : Bytes) (st : RtmpStream)
    → Sound st
    → Yields (Took (length bytes)) (receive_packet env bytes st)
unfolding receive_packet receive_handshake_packet
receive_packet-Took env bytes st h =
    if-Yields (Took (length bytes)) (is_complete st.handshake_state) _ _
      (λ _. chunk_packet-Took env bytes st h)
      (λ _. handshake_in-Took st.handshake_state env bytes st h)

cut_remained-Sound :
    (again : Action Unit) (remained : Bytes) (taken : Taken) (st : RtmpStream)
    → ((rest : Bytes)
        → length rest < length remained
        → Ends Sound (again (record st { remained_data = rest })))
    → Took (length remained) taken st
    → Ends Sound (cut_remained again remained taken st)
unfolding cut_remained
cut_remained-Sound again remained none st k (h, fits) = h
cut_remained-Sound again remained (some zero) st k (h, fits) = h
cut_remained-Sound again remained (some (suc n)) st k (h, fits) =
    k (drop (suc n) remained) (omega (arith, length-drop (suc n) remained))

packet_loop-Sound :
    (env : Environment) (fuel : ℕ) (st : RtmpStream)
    → length st.remained_data < fuel
    → Sound st
    → Ends Sound (packet_loop fuel env st)
unfolding packet_loop
packet_loop-Sound env zero st hf h = elim hf [ ]
packet_loop-Sound env (suc fuel) st hf h =
    let remained = st.remained_data in
    bind-Yields (Took (length remained)) (λ _. Sound) (receive_packet env remained st)
      (cut_remained (packet_loop fuel env) remained) (receive_packet-Took env remained st h)
      (λ taken st' r.
        cut_remained-Sound (packet_loop fuel env) remained taken st'
          (λ rest le.
            packet_loop-Sound env fuel (record st' { remained_data = rest }) (omega arith) r.0)
          r)

-- Whatever bytes a client sends, the loops of `onThreadProc` come to an end on them, and the
-- session is in a state of the invariant again: the importer can go on, no more traffic than the
-- window waits for an acknowledgement, the application has heard of the tracks once and before any
-- sample, and the handshake waits for a packet of the client or is complete. The process may be
-- stopped on the way, by a read through a null pointer or behind a buffer.
pub on_data-Sound :
    (env : Environment) (bytes : Bytes) (st : RtmpStream)
    → Sound st
    → Ends Sound (on_data env bytes st)
unfolding on_data
on_data-Sound env bytes st h =
    let remained = st.remained_data ++ bytes in
    packet_loop-Sound env (suc (length remained)) (record st { remained_data = remained })
      (omega arith) h

-- The states that a session can be in between two pieces of data.
pub data Reachable (env : Environment) : RtmpStream → Type 0 where
  start : Reachable env new_rtmp_stream
  next :
      {st st' : RtmpStream} (bytes : Bytes)
      → Reachable env st
      → on_data env bytes st ≡ returns tt st'
      → Reachable env st'

Ends-run : (st : RtmpStream) (r : Run Unit) → r ≡ returns tt st → Ends Sound r → Sound st
Ends-run st r e h = subst (Ends Sound) e h

-- Every state that a new session can come to is in the invariant: its importer can go on, no more
-- traffic than the window waits for an acknowledgement, the application has heard of the tracks
-- once and before any sample, and the handshake is not in the middle of an answer.
pub reachable-Sound : (env : Environment) (st : RtmpStream) → Reachable env st → Sound st
reachable-Sound env st start = ((omega arith, refl), omega arith, tt, tt)
reachable-Sound env st (next {st = old} bytes r e) =
    Ends-run st (on_data env bytes old) e (on_data-Sound env bytes old (reachable-Sound env old r))
