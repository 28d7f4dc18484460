-- ===== src/Health/Tests.antt =====
-- A monitor that has seen one message, and the properties at it.
use liquidity_bot.Prelude.{ℕ, arith, ◌≡◌, ◌+◌, refl, true, some, List, [], ◌∷◌, lookup}
use liquidity_bot.Models.{Time}
use liquidity_bot.Health.{SymbolHealth, DataHealthMonitor}
use liquidity_bot.Health.Gaps.{on_events, on_events-gap_count, Ascending}

abbrev seen : SymbolHealth
seen = record { last_event = some 500_000; last_seq = some 10; gap_count = 2 }

abbrev monitor : DataHealthMonitor
monitor = record {
  stale_ms = 1500;
  gap_tolerance = 5;
  connected = true;
  reconnect_count = 0;
  dropped_messages = 2;
  symbols = (1, seen) ∷ [];
}

-- 12 and 13 are missing
abbrev events : List (Time × ℕ)
events = (600_000, 11) ∷ (700_000, 14) ∷ []

on_events-gap_count_example :
    (h : SymbolHealth) × (lookup 1 (on_events 1 events monitor).symbols ≡ some h)
    × (h.gap_count + 2 + 10 ≡ 2 + 14)
unfolding Ascending
on_events-gap_count_example =
    on_events-gap_count 1 events 10 monitor seen refl refl (omega arith, (omega arith, tt))
