-- ===== src/Session/Keeping/Messages.antt =====
-- The messages that have arrived keep the invariant.
use media_engine.Base.{
  ℕ, zero, suc, refl, ap, Bool, true, false, List, [], arith, length, ◌<◌, ◌≡◌, ◌∷◌, ◌==◌,
  if◌then◌else◌,
}
use media_engine.Rtmp.Header.{Message}
use media_engine.Rtmp.MuxUtil.{read_int32}
use media_engine.Rtmp.ImportChunk.{ImportChunk, dequeue, get_message, get_message_count}
use media_engine.Rtmp.ImportChunk.Totality.{CanImport}
use media_engine.Session.{video, audio, RtmpStream, Environment, Action, ◌>>=◌, ◌>>◌, pure}
use media_engine.Session.Commands.{receive_amf_command_message, receive_amf_data_message}
use media_engine.Session.Receive.{
  receive_set_chunk_size, receive_window_acknowledgement_size, handle_message, with_message,
  message_loop, receive_chunk_message,
}
use media_engine.Session.Keeping.{
  Sound, Good, Ends, Keeps, bind-Yields, seq-Keeps, if-Ends, option-Ends,
}
use media_engine.Session.Keeping.Media.{media_message-Keeps}
use media_engine.Session.Keeping.Commands.{command_message-Keeps, data_message-Keeps}

positive : (n : ℕ) → (n == 0) ≡ false → 0 < n
positive n h = ground arith

module _ {queue : List Message} where
  set_chunk_size-Keeps : (m : Message) → Keeps (Good queue) (receive_set_chunk_size m)
  unfolding receive_set_chunk_size
  set_chunk_size-Keeps m st (q, can, window, ordered, settled) =
      option-Ends (Good queue) (read_int32 m.payload) _ _ tt (λ n _.
        if-Ends (Good queue) (n == 0) _ _ (λ _. (q, can, window, ordered, settled))
          (λ e. (q, (positive n e, can.1), window, ordered, settled)))

  window_size-Keeps : (m : Message) → Keeps (Good queue) (receive_window_acknowledgement_size m)
  unfolding receive_window_acknowledgement_size
  window_size-Keeps m st (q, can, window, ordered, settled) =
      option-Ends (Good queue) (read_int32 m.payload) _ _ tt (λ n _.
        if-Ends (Good queue) (n == 0) _ _ (λ _. (q, can, window, ordered, settled))
          (λ e. (q, can, omega arith, ordered, settled)))

  then_true : (m : Action Unit) → Keeps (Good queue) m → Keeps (Good queue) (m >> pure true)
  then_true m hm = seq-Keeps m (pure true) hm (λ st h. h)

  handle_message-Keeps :
      (env : Environment) (m : Message) → Keeps (Good queue) (handle_message env m)
  unfolding handle_message
  handle_message-Keeps env m st h =
      let type = m.header.completed.type_id in
      if-Ends (Good queue) (type == 8) _ _ (λ _. media_message-Keeps env audio m st h)
        (λ _.
          if-Ends (Good queue) (type == 9) _ _ (λ _. media_message-Keeps env video m st h)
            (λ _.
              if-Ends (Good queue) (type == 1) _ _ (λ _. set_chunk_size-Keeps m st h)
                (λ _.
                  if-Ends (Good queue) (type == 18) _ _
                    (λ _.
                      then_true (receive_amf_data_message env m) (data_message-Keeps env m) st h)
                    (λ _.
                      if-Ends (Good queue) (type == 20) _ _
                        (λ _.
                          then_true (receive_amf_command_message env m)
                            (command_message-Keeps env m) st h)
                        (λ _.
                          if-Ends (Good queue) (type == 5) _ _
                            (λ _.
                              then_true (receive_window_acknowledgement_size m)
                                (window_size-Keeps m) st h)
                            (λ _. h))))))

-- `ReceiveChunkMessage`
Good-Sound : (queue : List Message) (st : RtmpStream) → Good queue st → Sound st
Good-Sound queue st (q, can, window, ordered, settled) = (can, window, ordered, settled)

-- The loop, with fuel for more messages than there are.
abbrev LoopSound : Environment → ℕ → Type 0
LoopSound env fuel =
    (st : RtmpStream)
    → length st.import_chunk.message_queue < fuel
    → Sound st
    → Ends Sound (message_loop fuel env st)

rest_of_loop :
    (env : Environment) (fuel : ℕ) (ms : List Message) (done : Bool) (st : RtmpStream)
    → LoopSound env fuel
    → length ms < fuel
    → Good ms st
    → Ends Sound ((if done then message_loop fuel env else pure false) st)
rest_of_loop env fuel ms true st loop hf h =
    loop st (omega (arith, ap length h.0)) (Good-Sound ms st h)
rest_of_loop env fuel ms false st loop hf h = Good-Sound ms st h

with_message-Sound :
    (env : Environment) (fuel : ℕ) (c : ImportChunk) (queue : List Message) (st : RtmpStream)
    → LoopSound env fuel
    → length queue < suc fuel
    → CanImport c
    → Sound st
    → Ends Sound (
        with_message
          (λ m.
            handle_message env m >>= (λ done. if done then message_loop fuel env else pure false))
          (dequeue c queue)
          st)
unfolding with_message dequeue
with_message-Sound env fuel c [] st loop hf can h = h
with_message-Sound env fuel c (m ∷ ms) st loop hf can (old, window, ordered, settled) =
    bind-Yields (λ _. Good ms) (λ _. Sound)
      (handle_message env m (record st { import_chunk = record c { message_queue = ms } }))
      (λ done. if done then message_loop fuel env else pure false)
      (handle_message-Keeps env m (record st { import_chunk = record c { message_queue = ms } })
        (refl, can, window, ordered, settled))
      (λ done st' g. rest_of_loop env fuel ms done st' loop (omega arith) g)

message_loop-Sound : (env : Environment) (fuel : ℕ) → LoopSound env fuel
unfolding message_loop get_message
message_loop-Sound env zero st hf h = elim hf [ ]
message_loop-Sound env (suc fuel) st hf h =
    with_message-Sound env fuel st.import_chunk st.import_chunk.message_queue st
      (message_loop-Sound env fuel) hf h.0 h

pub chunk_message-Sound : (env : Environment) → Keeps Sound (receive_chunk_message env)
unfolding receive_chunk_message get_message_count
chunk_message-Sound env st h =
    message_loop-Sound env (suc (length st.import_chunk.message_queue)) st (omega arith) h
