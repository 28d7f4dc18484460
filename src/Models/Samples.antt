-- ===== src/Models/Samples.antt =====
-- core/models.py: records that the tests of several parts use.
use liquidity_bot.Prelude.{Bool, some}
use liquidity_bot.Float.Fixed.{ℤ, num}
use liquidity_bot.Models.{Signal, buy, reversal, Quote, rth, Position}
use liquidity_bot.Models.Features.{FeatureVector}
use liquidity_bot.Config.{RiskConfig, StrategyConfig, ScoringWeights}

abbrev pub vector : FeatureVector ℤ
vector = record {
  symbol = 1;
  ts = 1_000_000;
  mid = num 10 1;
  spread_bps = num 2 1;
  spread_pctile = num 1 2;
  residual_return = num 1 100;
  residual_z = num 4 1;
  flow_imbalance = num 1 10;
  impact_decay = num 1 2;
  replenishment_skew = num 1 10;
  microprice_bps = num 1 1;
  peer_confirmation = num 1 10;
  depth_imbalance = num 1 10;
  near_touch_ratio = num 1 2;
  queue_depletion = num 1 10;
  volume_z = num 2 1;
  vwap_distance_bps = num 3 1;
  realized_vol_bps = num 20 1;
  minutes_since_open = num 60 1;
  event_count = 500;
  residual_velocity = num 1 1;
  residual_acceleration = num 1 10;
  residual_vol_z = num 1 1;
  peer_confirm_latency_s = num 60 1;
  sector_confirm_latency_s = num 60 1;
  replenishment_confidence = num 1 2;
  vol_regime = 1;
  tod_bucket = 1;
  noii_pressure = num 0 1;
  data_confidence = num 1 1;
}

-- a buy at 10 with its stop at 9.5
abbrev pub signal : Signal ℤ
signal = record {
  symbol = 1;
  ts = 1_000_000;
  side = buy;
  action = reversal;
  score = num 4 1;
  reference_price = num 10 1;
  stop_price = num 95 10;
  target_price = num 11 1;
  trace_id = 3;
}

-- 100 shares long from 10
abbrev pub position : Position ℤ
position = record {
  symbol = 1;
  side = buy;
  quantity = num 100 1;
  entry_price = num 10 1;
  opened_at = 0;
  stop_price = num 95 10;
  target_price = num 11 1;
  signal_score = num 4 1;
  trace_id = 3;
  action = reversal;
  max_favorable = num 0 1;
  max_adverse = num 0 1;
  realized_pnl = num 0 1;
  exited_qty = num 0 1;
  exit_notional = num 0 1;
}

-- the quote of a narrow market below the position's stop
abbrev pub quote : Quote ℤ
quote = record {
  symbol = 1;
  ts = 1_000_000;
  bid = num 939 100;
  ask = num 941 100;
  bid_size = num 200 1;
  ask_size = num 300 1;
  session = rth;
  seq = some 5;
  recv_ts = 1_000_100;
}

abbrev pub risk_config : RiskConfig ℤ
risk_config = record {
  risk_per_trade_usd = num 50 1;
  max_position_shares = num 500 1;
  max_notional_per_symbol_usd = num 5000 1;
  max_gross_exposure_usd = num 20000 1;
  max_positions = 5;
  max_daily_loss_usd = num 500 1;
  max_consecutive_losses = 3;
  max_spread_bps = num 10 1;
  max_slippage_bps = num 5 1;
  max_holding_seconds = 180;
  stale_data_ms = 1500;
  max_order_retries = 3;
  symbol_cooldown_seconds = 120;
  strategy_cooldown_seconds = 900;
  kill_switch = Bool.false;
}

abbrev pub weights : ScoringWeights ℤ
weights = record {
  residual_z = num 1 1;
  flow_exhaustion = num 1 1;
  impact_decay = num 1 1;
  replenishment = num 1 1;
  microprice = num 1 1;
  peer_divergence = num 1 1;
  volume_surprise = num 1 1;
  depth_imbalance = num 1 1;
  spread_normalization = num 1 1;
}

abbrev pub strategy : StrategyConfig ℤ
strategy = record {
  residual_z_entry = num 3 1;
  min_score = num 2 1;
  min_continuation_score = num 3 1;
  max_holding_seconds = 180;
  target_residual_reversion = num 1 2;
  stop_bps = num 35 1;
  min_events = 50;
  no_trade_first_seconds = 300;
  no_trade_last_seconds = 600;
  min_volume_z = num 1 1;
  max_peer_confirmation_for_reversal = num 1 2;
  min_peer_confirmation_for_continuation = num 1 2;
  weights = weights;
}
