-- ===== src/Clock/Monotone.antt =====
-- core/clock.py: the clock under the events of a replay.
use liquidity_bot.Prelude.{ℕ, ◌≤◌, ◌≡◌, List, [], ◌∷◌, arith}
use liquidity_bot.Models.{Time}
use liquidity_bot.Clock.{SimClock, set, advance_ms}

-- what a replay calls: the time of an event, or a wait
pub data Tick : Type 0 where
  sets waits : ℕ → Tick

unfoldable pub tick : Tick → SimClock → SimClock
tick (sets ts) c = set ts c
tick (waits ms) c = advance_ms ms c

unfoldable pub run : List Tick → SimClock → SimClock
run [] c = c
run (t ∷ ts) c = run ts (tick t c)

tick-le : (t : Tick) (c : SimClock) → c.now ≤ (tick t c).now
unfolding tick set advance_ms
tick-le (sets ts) c = ground arith
tick-le (waits ms) c = omega arith

-- Time never goes back, in whatever order the events come.
pub run-le : (ts : List Tick) (c : SimClock) → c.now ≤ (run ts c).now
unfolding run
run-le [] c = omega arith
run-le (t ∷ ts) c = omega (arith, tick-le t c, run-le ts (tick t c))

-- An event that is not earlier than the clock finds the clock at its own time.
pub set-now : (ts : Time) (c : SimClock) → c.now ≤ ts → (set ts c).now ≡ ts
unfolding set
set-now ts c h = ground arith
