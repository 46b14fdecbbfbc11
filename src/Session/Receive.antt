-- ===== src/Session/Receive.antt =====
-- The receiving half of rtmp_stream.cpp: `ReceiveHandshakePacket`, `ReceiveChunkPacket`,
-- `ReceiveChunkMessage` with the control messages, and `onThreadProc` on each piece of data that
-- `OnDataReceived` queues.
use media_engine.Base.{
  ℕ, zero, suc, Bool, true, false, not, Option, none, some, [], ltb, length, drop, ◌+◌, ◌/◌, ◌%◌,
  ◌^◌, ◌∷◌, ◌++◌, ◌==◌, if◌then◌else◌,
}
use media_engine.Base.Bytes.{Bytes}
use media_engine.Rtmp.Header.{Message}
use media_engine.Rtmp.MuxUtil.{read_int32}
use media_engine.Rtmp.ImportChunk.{
  ImportChunk, ImportReturn, used, error, import, set_chunk_size, get_message, get_message_count,
}
use media_engine.Rtmp.ImportChunk
use media_engine.Rtmp.Handshake.{packet_size, byte_at}
use media_engine.Session.{
  HandshakeState, uninitialized, c0, s2, complete, video, audio, Environment, returns, crash, stuck,
  Action, bind, ◌>>=◌, ◌>>◌, pure, modify, ignore,
}
use media_engine.Session.Send.{send_handshake, send_acknowledgement_size, set_handshake_state}
use media_engine.Session.Media.{receive_media_message}
use media_engine.Session.Commands.{receive_amf_command_message, receive_amf_data_message}

-- The number of bytes that a packet took, none for one below 0.
abbrev pub Taken : Type 0
Taken = Option ℕ

-- The client's first packets: the version, and its signature.
unfoldable pub receive_c0_c1 : Environment → Bytes → Action Taken
unfolding bind send_handshake
receive_c0_c1 env bytes st =
    if ltb (length bytes) (1 + packet_size)
    then returns (some 0) st
    else if not (byte_at bytes 0 == 3)
    then returns none st
    else (set_handshake_state c0
          >> (send_handshake env bytes
              >>= (λ done. pure (if done then some (1 + packet_size) else none))))
        st

unfoldable pub receive_c2 : Bytes → Action Taken
receive_c2 bytes st =
    if ltb (length bytes) packet_size
    then returns (some 0) st
    else returns (some packet_size) (record st { handshake_state = complete })

-- `ReceiveHandshakePacket`
unfoldable pub receive_handshake_in : HandshakeState → Environment → Bytes → Action Taken
unfolding receive_c0_c1 receive_c2
receive_handshake_in uninitialized env bytes = receive_c0_c1 env bytes
receive_handshake_in s2 env bytes = receive_c2 bytes
receive_handshake_in _ env bytes = pure none

unfoldable pub receive_handshake_packet : Environment → Bytes → Action Taken
unfolding receive_handshake_in
receive_handshake_packet env bytes st = receive_handshake_in st.handshake_state env bytes st

-- `ReceiveSetChunkSize`; `ReadInt32` reads four bytes of any payload.
unfoldable pub receive_set_chunk_size : Message → Action Bool
unfolding read_int32
receive_set_chunk_size m st = elim (read_int32 m.payload) [
  | none ↦ crash
  | some n ↦
      if n == 0
      then returns false st
      else returns true (record st { import_chunk = set_chunk_size st.import_chunk n })
]

unfoldable pub receive_window_acknowledgement_size : Message → Action Unit
unfolding read_int32
receive_window_acknowledgement_size m st = elim (read_int32 m.payload) [
  | none ↦ crash
  | some n ↦
      if n == 0
      then returns tt st
      else returns tt (record st { acknowledgement_size = n / 2; acknowledgement_traffic = 0 })
]

-- The switch of `ReceiveChunkMessage`.
unfoldable pub handle_message : Environment → Message → Action Bool
unfolding bind receive_media_message receive_set_chunk_size receive_amf_data_message
    receive_amf_command_message receive_window_acknowledgement_size
handle_message env m st =
    let type = m.header.completed.type_id in
    if type == 8
    then receive_media_message env audio m st
    else if type == 9
    then receive_media_message env video m st
    else if type == 1
    then receive_set_chunk_size m st
    else if type == 18
    then (receive_amf_data_message env m >> pure true) st
    else if type == 20
    then (receive_amf_command_message env m >> pure true) st
    else if type == 5
    then (receive_window_acknowledgement_size m >> pure true) st
    else returns true st

-- `ReceiveChunkMessage`, for as many rounds as there are messages and one that finds none.
unfoldable pub with_message : (Message → Action Bool) → ImportChunk × Option Message → Action Bool
with_message handle (c, none) st = returns true st
with_message handle (c, some m) st = handle m (record st { import_chunk = c })

unfoldable pub message_loop : ℕ → Environment → Action Bool
unfolding bind with_message get_message handle_message
message_loop zero env st = stuck
message_loop (suc fuel) env st =
    with_message
      (λ m. handle_message env m >>= (λ done. if done then message_loop fuel env else pure false))
      (get_message st.import_chunk) st

unfoldable pub receive_chunk_message : Environment → Action Bool
unfolding message_loop get_message_count
receive_chunk_message env st = message_loop (suc (get_message_count st.import_chunk)) env st

-- A round of `ReceiveChunkPacket` behind `Import`: the messages, then the rest of the data.
unfoldable pub after_import : (ℕ → Action Taken) → Environment → ImportReturn → Action Taken
unfolding bind receive_chunk_message
after_import again env (used zero done) st = returns (some 0) st
after_import again env (used (suc n) done) st =
    if done
    then (receive_chunk_message env >>= (λ handled. if handled then again (suc n) else pure none))
        st
    else again (suc n) st
after_import again env error st = returns none st
after_import again env ImportChunk.crash st = crash
after_import again env ImportChunk.stuck st = stuck

-- What the round took and what the rounds behind it took.
unfoldable pub add_taken : ℕ → Taken → Taken
add_taken n none = none
add_taken n (some k) = some (n + k)

-- The loop of `ReceiveChunkPacket`, each round of which takes a byte at least.
unfoldable pub chunk_loop : ℕ → Environment → Bytes → Action Taken
unfolding bind after_import import add_taken
chunk_loop zero env bytes st = stuck
chunk_loop (suc fuel) env [] st = returns (some 0) st
chunk_loop (suc fuel) env (b ∷ s) st =
    let imported = import st.import_chunk (b ∷ s) in
    after_import (λ n. chunk_loop fuel env (drop n (b ∷ s)) >>= (λ k. pure (add_taken n k))) env
      imported.1 (record st { import_chunk = imported.0 })

-- The acknowledgement behind the loop.
unfoldable pub acknowledge : Taken → Action Taken
unfolding bind send_acknowledgement_size
acknowledge none st = returns none st
acknowledge (some n) st =
    let traffic = (st.acknowledgement_traffic + n) % 2 ^ 32 in
    if ltb st.acknowledgement_size traffic
    then (ignore (send_acknowledgement_size traffic)
          >> (modify (λ r. record r { acknowledgement_traffic = 0 }) >> pure (some n)))
        (record st { acknowledgement_traffic = traffic })
    else returns (some n) (record st { acknowledgement_traffic = traffic })

-- `ReceiveChunkPacket`
unfoldable pub receive_chunk_packet : Environment → Bytes → Action Taken
unfolding bind chunk_loop acknowledge
receive_chunk_packet env bytes =
    chunk_loop (suc (length bytes)) env bytes >>= (λ taken. acknowledge taken)

-- The switch of `onThreadProc`.
unfoldable pub is_complete : HandshakeState → Bool
is_complete complete = true
is_complete _ = false

unfoldable pub receive_packet : Environment → Bytes → Action Taken
unfolding is_complete receive_chunk_packet receive_handshake_packet
receive_packet env bytes st =
    if is_complete st.handshake_state
    then receive_chunk_packet env bytes st
    else receive_handshake_packet env bytes st

-- The inner loop of `onThreadProc`: an error and a call that took nothing end it, and leave
-- `_remained_data` as it is.
unfoldable pub cut_remained : Action Unit → Bytes → Taken → Action Unit
cut_remained again remained none st = returns tt st
cut_remained again remained (some zero) st = returns tt st
cut_remained again remained (some (suc n)) st =
    again (record st { remained_data = drop (suc n) remained })

unfoldable pub packet_loop : ℕ → Environment → Action Unit
unfolding bind receive_packet cut_remained
packet_loop zero env st = stuck
packet_loop (suc fuel) env st =
    let remained = st.remained_data in
    bind (receive_packet env remained st) (cut_remained (packet_loop fuel env) remained)

-- `onThreadProc` on the next piece of data.
unfoldable pub on_data : Environment → Bytes → Action Unit
unfolding packet_loop
on_data env bytes st =
    let remained = st.remained_data ++ bytes in
    packet_loop (suc (length remained)) env (record st { remained_data = remained })
