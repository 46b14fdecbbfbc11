-- ===== src/Rtmp/ChunkParser/Totality.antt =====
-- `Parse` returns on every input, without an error, and counts what it has taken.
use media_engine.Base.{
  ℕ, zero, suc, refl, Option, none, some, [], arith, length, ◌+◌, ◌≤◌, ◌<◌, ◌≡◌, ◌∙◌, ◌∷◌,
}
use media_engine.Base.Bytes.{Bytes}
use media_engine.Rtmp.Header.{ChunkHeader, new_chunk_header}
use media_engine.Rtmp.ChunkParser.{
  ChunkMap, find, ChunkParser, ParseStatus, basic_header, message_header, extended_timestamp,
  ParseResult, need_more_data, failed, ParseReturn, used, error, stuck, Turn, return, continue,
  turn, parse_loop, parse, basic_header_turn, message_header_turn, extended_timestamp_turn, turn_at,
}
use media_engine.Rtmp.ChunkParser.Safety.{
  Takes, AnyHeader, NoMessage, NoMessageYet, NothingTaken, AnyCount, parse_basic_header-Takes,
  parse_message_header-Takes, parse_extended_timestamp-Takes,
}

-- The parser between two rounds: what each status knows of the header in the making, of
-- `total_parsed_bytes` and of `parsed_bytes`.
abbrev pub Ready : ParseStatus → Option ChunkHeader → ℕ → ℕ → Type 0
Ready basic_header current total parsed = total ≡ 0
Ready ParseStatus.completed none total parsed = ⊥
Ready ParseStatus.completed (some h) total parsed = total ≡ 0
Ready message_header none total parsed = ⊥
Ready message_header (some h) total parsed = NoMessage h
Ready extended_timestamp none total parsed = ⊥
Ready extended_timestamp (some h) total parsed = NothingTaken h parsed

-- A parser on which `Parse` may be called.
abbrev pub IsReady : ChunkParser → Type 0
IsReady p = Ready p.status p.current 0 0

-- How many rounds are left at most.
abbrev rank : ParseStatus → ℕ
rank ParseStatus.completed = 4
rank basic_header = 3
rank message_header = 2
rank extended_timestamp = 1

-- Only a completed header has all its bytes counted.
abbrev pub Exact : ParseStatus → ℕ → ℕ → Type 0
Exact ParseStatus.completed counted given = counted ≡ given
Exact _ counted given = Unit

Exact-of : (st : ParseStatus) (counted given : ℕ) → counted ≡ given → Exact st counted given
Exact-of ParseStatus.completed counted given e = e
Exact-of basic_header counted given e = tt
Exact-of message_header counted given e = tt
Exact-of extended_timestamp counted given e = tt

Exact-later : (st : ParseStatus) (a b c : ℕ) → b ≡ c → Exact st a b → Exact st a c
Exact-later ParseStatus.completed a b c e h = h ∙ e
Exact-later basic_header a b c e h = tt
Exact-later message_header a b c e h = tt
Exact-later extended_timestamp a b c e h = tt

pub Exact-at :
    (st : ParseStatus) (counted given : ℕ)
    → Exact st counted given
    → st ≡ ParseStatus.completed
    → counted ≡ given
Exact-at st counted given h e = go (rw e at h)
  where
    go : Exact ParseStatus.completed counted given → counted ≡ given
    go h = h

-- A return: the parser is ready again, no more is taken than was there, and a completed header
-- leaves the bytes behind it.
abbrev pub Returns : Bytes → ℕ → ParseReturn → Type 0
Returns s total (used n p s') =
    IsReady p × (n ≤ total + length s) × Exact p.status (length s' + n) (length s + total)
Returns s total (error p) = ⊥
Returns s total ParseReturn.crash = ⊥
Returns s total stuck = ⊥

abbrev Goes : ParseStatus → Bytes → ℕ → Turn → Type 0
Goes st s total (return r) = Returns s total r
Goes st s total (continue p s' total' parsed') =
    Ready p.status p.current total' parsed'
    × (length s' + total' ≡ length s + total)
    × (rank p.status < rank st)

basic_header_turn-Goes :
    (s : Bytes) (r : ParseResult)
    → Takes AnyHeader NoMessageYet s r
    → Goes basic_header s 0 (basic_header_turn s r)
unfolding basic_header_turn
basic_header_turn-Goes s (need_more_data h) t = (refl, omega arith, tt)
basic_header_turn-Goes s (ParseResult.completed h s' n) (q, l) =
    ((λ _. q), omega arith, omega arith)
basic_header_turn-Goes s failed t = absurd t
basic_header_turn-Goes s ParseResult.crash t = absurd t

message_header_turn-Goes :
    (s : Bytes) (total : ℕ) (r : ParseResult)
    → Takes NoMessage NothingTaken s r
    → Goes message_header s total (message_header_turn s total r)
unfolding message_header_turn
message_header_turn-Goes s total (need_more_data h) t = (t, omega arith, tt)
message_header_turn-Goes s total (ParseResult.completed h s' n) (q, l) =
    (q, omega arith, omega arith)
message_header_turn-Goes s total failed t = absurd t
message_header_turn-Goes s total ParseResult.crash t = absurd t

extended_timestamp_turn-Goes :
    (s : Bytes) (total : ℕ) (r : ParseResult)
    → Takes AnyHeader AnyCount s r
    → Goes extended_timestamp s total (extended_timestamp_turn s total r)
unfolding extended_timestamp_turn
extended_timestamp_turn-Goes s total (need_more_data h) t = ((λ _. refl), omega arith, tt)
extended_timestamp_turn-Goes s total (ParseResult.completed h s' n) (q, l) =
    (refl, omega arith, omega arith)
extended_timestamp_turn-Goes s total failed t = absurd t
extended_timestamp_turn-Goes s total ParseResult.crash t = absurd t

turn_at-Goes :
    (st : ParseStatus) (m : ChunkMap) (current : Option ChunkHeader) (s : Bytes) (total parsed : ℕ)
    → Ready st current total parsed
    → Goes st s total (turn_at st m current s total parsed)
unfolding turn_at
turn_at-Goes basic_header m current s total parsed r =
    rw r (basic_header_turn-Goes s _ (parse_basic_header-Takes new_chunk_header s refl))
turn_at-Goes ParseStatus.completed m none s total parsed r = absurd r
turn_at-Goes ParseStatus.completed m (some h) s total parsed r = (r, refl, omega arith)
turn_at-Goes message_header m none s total parsed r = absurd r
turn_at-Goes message_header m (some h) s total parsed r =
    message_header_turn-Goes s total _ (parse_message_header-Takes h s r)
turn_at-Goes extended_timestamp m none s total parsed r = absurd r
turn_at-Goes extended_timestamp m (some h) s total parsed r =
    extended_timestamp_turn-Goes s total _
      (parse_extended_timestamp-Takes (find h.stream_id m) h s parsed r)

Ready-again :
    (st : ParseStatus) (current : Option ChunkHeader) (total parsed : ℕ)
    → Ready st current total parsed
    → Ready st current 0 0
Ready-again basic_header current total parsed r = refl
Ready-again ParseStatus.completed none total parsed r = absurd r
Ready-again ParseStatus.completed (some h) total parsed r = refl
Ready-again message_header none total parsed r = absurd r
Ready-again message_header (some h) total parsed r = r
Ready-again extended_timestamp none total parsed r = absurd r
Ready-again extended_timestamp (some h) total parsed r = λ _. refl

-- What holds of a return over what is left holds over the whole.
Returns-later :
    (s s' : Bytes) (total total' : ℕ) (r : ParseReturn)
    → length s' + total' ≡ length s + total
    → Returns s' total' r
    → Returns s total r
Returns-later s s' total total' (used n p rest) e (ready, bound, exact) =
    (ready, omega arith, Exact-later p.status _ _ _ e exact)
Returns-later s s' total total' (error p) e t = t
Returns-later s s' total total' ParseReturn.crash e t = t
Returns-later s s' total total' stuck e t = t

-- One round, given the rounds after it.
after_turn :
    (fuel : ℕ) (m : ChunkMap) (p : ChunkParser) (s : Bytes) (total : ℕ)
    → ((p' : ChunkParser) (s' : Bytes) (total' parsed' : ℕ)
        → rank p'.status < fuel
        → Ready p'.status p'.current total' parsed'
        → Returns s' total' (parse_loop fuel m p' s' total' parsed'))
    → rank p.status < suc fuel
    → (t : Turn) → Goes p.status s total t
    → Returns s total (elim t [
      | return r ↦ r
      | continue p' s' total' parsed' ↦ parse_loop fuel m p' s' total' parsed'
    ])
after_turn fuel m p s total later h (return r) g = g
after_turn fuel m p s total later h (continue p' s' total' parsed') (ready, kept, falls) =
    Returns-later s s' total total' _ kept (later p' s' total' parsed' (omega arith) ready)

parse_loop-Returns :
    (fuel : ℕ) (m : ChunkMap) (p : ChunkParser) (s : Bytes) (total parsed : ℕ)
    → rank p.status < fuel
    → Ready p.status p.current total parsed
    → Returns s total (parse_loop fuel m p s total parsed)
unfolding parse_loop
parse_loop-Returns zero m p s total parsed h r = elim h [ ]
parse_loop-Returns (suc fuel) m p [] total parsed h r =
    (Ready-again p.status p.current total parsed r, omega arith, Exact-of p.status _ _ refl)
parse_loop-Returns (suc fuel) m p (b ∷ s) total parsed h r =
    after_turn fuel m p (b ∷ s) total
      (λ p' s' total' parsed' l ready. parse_loop-Returns fuel m p' s' total' parsed' l ready) h
      (turn m p (b ∷ s) total parsed)
      (unfold turn in turn_at-Goes p.status m p.current (b ∷ s) total parsed r)

rank-lt : (st : ParseStatus) → rank st < 5
rank-lt basic_header = omega arith
rank-lt message_header = omega arith
rank-lt extended_timestamp = omega arith
rank-lt ParseStatus.completed = omega arith

-- On a ready parser `Parse` returns on every input, whole or cut anywhere, with no error, no null
-- pointer and no endless loop. It leaves a ready parser and counts at most the bytes there were;
-- where it completes the header, it has counted exactly the bytes in front of what is left.
pub parse-Returns :
    (m : ChunkMap) (p : ChunkParser) (s : Bytes) → IsReady p → Returns s 0 (parse m p s)
unfolding parse
parse-Returns m p s r = parse_loop-Returns 5 m p s 0 0 (rank-lt p.status) r
