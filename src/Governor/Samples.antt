-- ===== src/Governor/Samples.antt =====
-- strategy/governor.py: a governor of a quiet market, which tests use.
use liquidity_bot.Prelude.{true, some, [], ◌∷◌}
use liquidity_bot.Float.Fixed.{ℤ, num}
use liquidity_bot.Models.Samples.{strategy}
use liquidity_bot.Health.{DataHealthMonitor}
use liquidity_bot.Governor.{StrategyGovernor}

abbrev pub monitor : DataHealthMonitor
monitor = record {
  stale_ms = 1500;
  gap_tolerance = 5;
  connected = true;
  reconnect_count = 0;
  dropped_messages = 0;
  symbols = (1, record { last_event = some 500_000; last_seq = some 10; gap_count = 0 }) ∷ [];
}

abbrev pub governor : StrategyGovernor ℤ
governor = record {
  cfg = record {
    max_breadth_for_reversal = num 1 2;
    max_realized_vol_bps = num 100 1;
    min_realized_vol_bps = num 5 1;
    max_spread_pctile_for_entry = num 9 10;
    max_sequence_gap_tolerance = 5;
    require_healthy_stream = true;
    catalyst_blacklist = 9 ∷ [];
    earnings_blacklist = [];
  };
  strat = strategy;
  health = monitor;
  session_minutes = num 390 1;
  market_breadth = num 1 10;
  sector_momentum = num 0 1;
}
