-- ===== src/Session/Handshaking.antt =====
-- The handshake of a new session, whatever way its bytes are cut.
use media_engine.Base.{
  ℕ, suc, refl, sym, ap, inl, inr, false, List, [], append_assoc, arith, ltb, ltb→lt, lt→ltb,
  le→ltb, Bool-cases, length, take, drop, length-append, length-drop, take-append_le, ◌+◌, ◌-◌, ◌≤◌,
  ◌<◌, ◌≡◌, ◌∙◌, ◌∷◌, ◌++◌,
}
use media_engine.Base.Bytes.{Bytes}
use media_engine.Rtmp.Handshake.{packet_size, byte_at, make_s1, make_s2}
use media_engine.Session.{
  HandshakeState, uninitialized, s2, complete, RtmpStream, new_rtmp_stream, Environment, Run,
  returns, bind, Action, ◌>>◌, pure,
}
use media_engine.Session.Send.{send_handshake, send_data}
use media_engine.Session.Receive.{
  receive_c0_c1, receive_c2, receive_handshake_in, receive_handshake_packet, is_complete,
  receive_packet, cut_remained, packet_loop, on_data, receive_chunk_packet, chunk_loop, acknowledge,
}

-- The pieces of data, one behind the other.
unfoldable pub on_all : Environment → List Bytes → Action Unit
unfolding bind on_data
on_all env [] = pure tt
on_all env (p ∷ ps) = on_data env p >> on_all env ps

-- A session that has done nothing but shake hands.
abbrev pub shaking : HandshakeState → List Bytes → Bytes → RtmpStream
shaking state sent remained = record new_rtmp_stream {
  handshake_state = state;
  sent = sent;
  remained_data = remained;
}

module _ (env : Environment) (fuel : ℕ) (sent : List Bytes) (r : Bytes) where
  wait_c0_c1 :
      length r < 1 + packet_size
      → packet_loop (suc fuel) env (shaking uninitialized sent r)
        ≡ returns tt (shaking uninitialized sent r)
  unfolding packet_loop receive_packet is_complete receive_handshake_packet receive_handshake_in
      receive_c0_c1 bind cut_remained
  wait_c0_c1 h = rw (lt→ltb (length r) (1 + packet_size) h)

  wait_c2 :
      length r < packet_size
      → packet_loop (suc fuel) env (shaking s2 sent r) ≡ returns tt (shaking s2 sent r)
  unfolding packet_loop receive_packet is_complete receive_handshake_packet receive_handshake_in
      receive_c2 bind cut_remained
  wait_c2 h = rw (lt→ltb (length r) packet_size h)

  take_c0_c1 :
      1 + packet_size ≤ length r
      → byte_at r 0 ≡ 3
      → packet_loop (suc fuel) env (shaking uninitialized [] r)
        ≡ packet_loop fuel env (
            shaking s2
              ((3 ∷ []) ∷ make_s1 env.supply env.now ∷ make_s2 env.supply (drop 1 r) ∷ [])
              (drop (1 + packet_size) r))
  unfolding packet_loop receive_packet is_complete receive_handshake_packet receive_handshake_in
      receive_c0_c1 bind cut_remained send_handshake send_data
  take_c0_c1 h e = rw (le→ltb (length r) (1 + packet_size) h, e)

  take_c2 :
      packet_size ≤ length r
      → packet_loop (suc fuel) env (shaking s2 sent r)
        ≡ packet_loop fuel env (shaking complete sent (drop packet_size r))
  unfolding packet_loop receive_packet is_complete receive_handshake_packet receive_handshake_in
      receive_c2 bind cut_remained
  take_c2 h = rw (le→ltb (length r) packet_size h)

nothing_left :
    (env : Environment) (fuel : ℕ) (sent : List Bytes)
    → packet_loop (suc fuel) env (shaking complete sent []) ≡ returns tt (shaking complete sent [])
unfolding packet_loop receive_packet is_complete receive_chunk_packet chunk_loop acknowledge bind
    cut_remained
nothing_left env fuel sent = refl

unfoldable pub joined : List Bytes → Bytes
joined [] = []
joined (p ∷ ps) = p ++ joined ps

-- A piece that leaves the session in a known state, and the pieces behind it.
next_piece :
    (env : Environment) (p : Bytes) (ps : List Bytes) (st st' final : RtmpStream)
    → on_data env p st ≡ returns tt st'
    → on_all env ps st' ≡ returns tt final
    → on_all env (p ∷ ps) st ≡ returns tt final
unfolding on_all bind
next_piece env p ps st st' final e f = ap (λ r. bind r (λ _. on_all env ps)) e ∙ f

no_bytes : (xs : Bytes) → length xs ≡ 0 → xs ≡ []
no_bytes [] h = refl
no_bytes (x ∷ xs) h = ground arith

module _ (env : Environment) (sent : List Bytes) where
  -- Nothing but empty pieces.
  stay_complete :
      (ps : List Bytes)
      → length (joined ps) ≡ 0
      → on_all env ps (shaking complete sent []) ≡ returns tt (shaking complete sent [])
  unfolding joined on_all on_data
  stay_complete [] h = refl
  stay_complete ([] ∷ ps) h =
      next_piece env [] ps (shaking complete sent []) (shaking complete sent [])
        (shaking complete sent []) (nothing_left env 0 sent) (stay_complete ps h)
  stay_complete ((b ∷ p) ∷ ps) h = ground arith

  -- The client's last packet has arrived, and nothing else.
  finish :
      (fuel : ℕ) (r : Bytes)
      → length r ≡ packet_size
      → packet_loop (suc (suc fuel)) env (shaking s2 sent r) ≡ returns tt (shaking complete sent [])
  finish fuel r h =
      take_c2 env (suc fuel) sent r (omega arith)
      ∙ ap (λ rest. packet_loop (suc fuel) env (shaking complete sent rest))
          (no_bytes (drop packet_size r) (omega (arith, length-drop packet_size r)))
      ∙ nothing_left env fuel sent

  from_c2 :
      (ps : List Bytes) (x : Bytes)
      → length x < packet_size
      → length x + length (joined ps) ≡ packet_size
      → on_all env ps (shaking s2 sent x) ≡ returns tt (shaking complete sent [])
  unfolding joined on_data
  from_c2 [] x short all = ground arith
  from_c2 (p ∷ ps) x short all =
      let r = x ++ p in
      let sizes : length r + length (joined ps) ≡ packet_size =
        omega (arith, length-append x p, length-append p (joined ps)) in
      elim (Bool-cases (ltb (length r) packet_size)) [
        | inl e ↦
            next_piece env p ps (shaking s2 sent x) (shaking s2 sent r) (shaking complete sent [])
              (wait_c2 env (length r) sent r (ltb→lt (length r) packet_size e))
              (from_c2 ps r (ltb→lt (length r) packet_size e) sizes)
        | inr e ↦
            let full : length r ≡ packet_size = ground arith in
            next_piece env p ps (shaking s2 sent x) (shaking complete sent [])
              (shaking complete sent [])
              (ap (λ n. packet_loop (suc n) env (shaking s2 sent r)) full ∙ finish 1535 r full)
              (stay_complete ps (omega arith))
      ]

not_less : (a b : ℕ) → ltb a b ≡ false → b ≤ a
not_less a b h = ground arith

byte_at-append : (r s : Bytes) → 0 < length r → byte_at (r ++ s) 0 ≡ byte_at r 0
byte_at-append [] s h = elim h [ ]
byte_at-append (b ∷ r) s h = refl

-- The three packets of the server, S2 made from what it had seen of the client.
abbrev pub answers : Environment → Bytes → List Bytes
answers env seen = (3 ∷ []) ∷ make_s1 env.supply env.now ∷ make_s2 env.supply seen ∷ []

-- How a session ends that has got `bytes`: complete, with the three packets sent and nothing left,
-- where S2 is made from the client's signature and what had come with it.
abbrev pub Completes : Environment → Bytes → Run Unit → Type 0
Completes env bytes r =
    (seen : Bytes) × (take packet_size seen ≡ take packet_size (drop 1 bytes))
    × (r ≡ returns tt (shaking complete (answers env seen) []))

seen_c1 :
    (r s : Bytes)
    → 1 + packet_size ≤ length r
    → take packet_size (drop 1 r) ≡ take packet_size (drop 1 (r ++ s))
seen_c1 [] s h = elim h [ ]
seen_c1 (b ∷ r) s h = sym (take-append_le packet_size r s (omega arith))

module _ (env : Environment) where
  -- The first two packets are there, and perhaps a part of the last.
  answered :
      (ps : List Bytes) (r : Bytes)
      → 1 + packet_size ≤ length r
      → length r + length (joined ps) ≡ 1 + packet_size + packet_size
      → byte_at r 0 ≡ 3
      → (st : RtmpStream) × (packet_loop (suc (length r)) env (shaking uninitialized [] r)
          ≡ returns tt st)
        × (on_all env ps st ≡ returns tt (shaking complete (answers env (drop 1 r)) []))
  answered ps r enough all version =
      let sent = answers env (drop 1 r) in
      let rest = drop (1 + packet_size) r in
      let left : length rest ≡ length r - (1 + packet_size) = length-drop (1 + packet_size) r in
      let pred : length r ≡ suc (length r - 1) = omega arith in
      let taken = take_c0_c1 env (length r) [] r enough version in
      elim (Bool-cases (ltb (length rest) packet_size)) [
        | inl e ↦ (
          shaking s2 sent rest,
          taken
              ∙ ap (λ n. packet_loop n env (shaking s2 sent rest)) pred
              ∙ wait_c2 env (length r - 1) sent rest (ltb→lt (length rest) packet_size e),
          from_c2 env sent ps rest (ltb→lt (length rest) packet_size e) (omega (arith, left)),
        )
        | inr e ↦
            let full : length rest ≡ packet_size =
              omega (arith, left, not_less (length rest) packet_size e) in
            (
              shaking complete sent [],
              taken
                  ∙ ap (λ n. packet_loop n env (shaking s2 sent rest)) (omega (arith, left))
                  ∙ finish env sent (length r - 2) rest full,
              stay_complete env sent ps (omega (arith, left)),
            )
      ]

  from_start :
      (ps : List Bytes) (x : Bytes)
      → length x < 1 + packet_size
      → length x + length (joined ps) ≡ 1 + packet_size + packet_size
      → byte_at (x ++ joined ps) 0 ≡ 3
      → Completes env (x ++ joined ps) (on_all env ps (shaking uninitialized [] x))
  unfolding joined on_all on_data bind
  from_start [] x short all version = ground arith
  from_start (p ∷ ps) x short all version =
      let r = x ++ p in
      let sizes : length r + length (joined ps) ≡ 1 + packet_size + packet_size =
        omega (arith, length-append x p, length-append p (joined ps)) in
      let same : x ++ (p ++ joined ps) ≡ r ++ joined ps = sym (append_assoc x p (joined ps)) in
      elim (Bool-cases (ltb (length r) (1 + packet_size))) [
        | inl e ↦
            let more =
              from_start ps r (ltb→lt (length r) (1 + packet_size) e) sizes
                (ap (λ s. byte_at s 0) (sym same) ∙ version) in
            (
              more.0,
              more.1 ∙ ap (λ s. take packet_size (drop 1 s)) (sym same),
              next_piece env p ps (shaking uninitialized [] x) (shaking uninitialized [] r)
                  (shaking complete (answers env more.0) [])
                  (wait_c0_c1 env (length r) [] r (ltb→lt (length r) (1 + packet_size) e)) more.2,
            )
        | inr e ↦
            let enough : 1 + packet_size ≤ length r = not_less (length r) (1 + packet_size) e in
            let first : byte_at r 0 ≡ 3 =
              sym (byte_at-append r (joined ps) (omega arith))
              ∙ ap (λ s. byte_at s 0) (sym same)
              ∙ version in
            let done = answered ps r enough sizes first in
            (
              drop 1 r,
              seen_c1 r (joined ps) enough ∙ ap (λ s. take packet_size (drop 1 s)) (sym same),
              next_piece env p ps (shaking uninitialized [] x) done.0
                  (shaking complete (answers env (drop 1 r)) []) done.1 done.2,
            )
      ]

-- The client's three packets, 3073 bytes of which the first is 3, complete the handshake of a new
-- session in whatever pieces they come, empty ones among them: the server has sent S0, S1 and S2,
-- has nothing left over, and made S2 from bytes that start with the client's signature.
pub handshake-Completes :
    (env : Environment) (pieces : List Bytes)
    → length (joined pieces) ≡ 1 + packet_size + packet_size
    → byte_at (joined pieces) 0 ≡ 3
    → Completes env (joined pieces) (on_all env pieces new_rtmp_stream)
handshake-Completes env pieces all version =
    from_start env pieces [] (omega arith) (omega (arith, all)) version
