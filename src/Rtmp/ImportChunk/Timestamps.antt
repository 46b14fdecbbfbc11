-- ===== src/Rtmp/ImportChunk/Timestamps.antt =====
-- `CalculateRolledTimestamp` over all pairs of timestamps.
use media_engine.Base.{ℕ, arith, ◌+◌, ◌-◌, ◌/◌, ◌%◌, ◌^◌, ◌≤◌, ◌<◌, ◌≡◌, ◌⊎◌}
use media_engine.Rtmp.ImportChunk.{calculate_rolled_timestamp, distance}

-- The result keeps the low 31 bits of the parsed timestamp. Where the parsed timestamp is less than
-- 2 ^ 30 away from the last one, on either side, the result is the parsed timestamp itself; else it
-- lies, counted in periods of 2 ^ 31, in the one after the last timestamp's, and one further for
-- each period that the parsed timestamp has itself, which one of 31 bits has not.
pub rolled_timestamp :
    (last parsed : ℕ)
    → (calculate_rolled_timestamp last parsed % 2 ^ 31 ≡ parsed % 2 ^ 31)
      × (((distance last parsed < 2 ^ 30) × (calculate_rolled_timestamp last parsed ≡ parsed))
          ⊎ ((2 ^ 30 ≤ distance last parsed)
              × (calculate_rolled_timestamp last parsed / 2 ^ 31
                  ≡ last / 2 ^ 31 + 1 + parsed / 2 ^ 31)))
unfolding calculate_rolled_timestamp
rolled_timestamp last parsed = (ground arith, ground arith)

rolled_far :
    (last parsed : ℕ)
    → parsed + 2 ^ 30 ≤ last
    → calculate_rolled_timestamp last parsed ≡ last + 2 ^ 31 - last % 2 ^ 31 + parsed
unfolding calculate_rolled_timestamp
rolled_far last parsed far = ground arith

-- A stream that has rolled once rolls at every message with a full timestamp: two timestamps below
-- 2 ^ 30 that follow one another by `step`, after a last one at least 2 ^ 30 above them, come out
-- 2 ^ 31 + step apart.
pub rolled_again :
    (last parsed step : ℕ)
    → parsed + 2 ^ 30 ≤ last
    → parsed + step < 2 ^ 30
    → calculate_rolled_timestamp (calculate_rolled_timestamp last parsed) (parsed + step)
      ≡ calculate_rolled_timestamp last parsed + (2 ^ 31 + step)
rolled_again last parsed step far small =
    let first = rolled_far last parsed far in
    omega (
      arith,
      first,
      rolled_far (calculate_rolled_timestamp last parsed) (parsed + step) (omega (arith, first)),
    )
