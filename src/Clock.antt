-- ===== src/Clock.antt =====
-- core/clock.py: the simulated clock, which replay drives. The wall clock is the operating system's.
pub mod Monotone
use liquidity_bot.Prelude.{ℕ, ◌+◌, ◌*◌, ltb, if◌then◌else◌}
use liquidity_bot.Models.{Time}

pub record SimClock : Type 0 where
  pub now : Time

unfoldable pub set : Time → SimClock → SimClock
set ts c = if ltb c.now ts then record { now = ts } else c

unfoldable pub advance_ms : ℕ → SimClock → SimClock
advance_ms ms c = record { now = c.now + ms * 1000 }
