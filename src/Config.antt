-- ===== src/Config.antt =====
-- core/config.py: the sections of the settings that the modelled code reads, and the interlock.
-- Durations that the source gives in whole seconds or milliseconds stay so.
use liquidity_bot.Prelude.{
  ℕ, ◌≡◌, Bool, true, false, Option, none, some, List, arith, if◌then◌else◌, ◌&&◌, not,
}

pub record RiskConfig (F : Type 0) : Type 0 where
  pub risk_per_trade_usd : F
  pub max_position_shares : F
  pub max_notional_per_symbol_usd : F
  pub max_gross_exposure_usd : F
  pub max_positions : ℕ
  pub max_daily_loss_usd : F
  pub max_consecutive_losses : ℕ
  pub max_spread_bps : F
  pub max_slippage_bps : F
  pub max_holding_seconds : ℕ
  pub stale_data_ms : ℕ
  pub max_order_retries : ℕ
  pub symbol_cooldown_seconds : ℕ
  pub strategy_cooldown_seconds : ℕ
  pub kill_switch : Bool

pub record ScoringWeights (F : Type 0) : Type 0 where
  pub residual_z : F
  pub flow_exhaustion : F
  pub impact_decay : F
  pub replenishment : F
  pub microprice : F
  pub peer_divergence : F
  pub volume_surprise : F
  pub depth_imbalance : F
  pub spread_normalization : F

pub record StrategyConfig (F : Type 0) : Type 0 where
  pub residual_z_entry : F
  pub min_score : F
  pub min_continuation_score : F
  pub max_holding_seconds : ℕ
  pub target_residual_reversion : F
  pub stop_bps : F
  pub min_events : ℕ
  pub no_trade_first_seconds : ℕ
  pub no_trade_last_seconds : ℕ
  pub min_volume_z : F
  pub max_peer_confirmation_for_reversal : F
  pub min_peer_confirmation_for_continuation : F
  pub weights : ScoringWeights F

pub record GovernorConfig (F : Type 0) : Type 0 where
  pub max_breadth_for_reversal : F
  pub max_realized_vol_bps : F
  pub min_realized_vol_bps : F
  pub max_spread_pctile_for_entry : F
  pub max_sequence_gap_tolerance : ℕ
  pub require_healthy_stream : Bool
  pub catalyst_blacklist : List ℕ
  pub earnings_blacklist : List ℕ

pub record PaperFillConfig (F : Type 0) : Type 0 where
  pub latency_ms : ℕ
  pub cancel_latency_ms : ℕ
  pub queue_position_factor : F
  pub require_trade_through : Bool
  pub marketable_max_take_fraction : F
  pub adverse_selection_bps : F
  pub partial_fill_min_shares : F

pub data Environment : Type 0 where
  sandbox production : Environment

pub data Mode : Type 0 where
  recording research replay paper live : Mode

pub data ConfigError : Type 0 where
  live_needs_opt_in live_in_sandbox : ConfigError

abbrev is_live : Mode → Bool
is_live live = true
is_live _ = false

abbrev is_sandbox : Environment → Bool
is_sandbox sandbox = true
is_sandbox production = false

-- `Settings._fail_closed`: the error that validation raises
unfoldable pub fail_closed : Mode → Environment → Bool → Option ConfigError
fail_closed mode environment live_trading_enabled =
    if is_live mode && not live_trading_enabled
    then some live_needs_opt_in
    else if is_live mode && is_sandbox environment
    then some live_in_sandbox
    else none

-- Validation passes live mode exactly with both the opt-in and the production environment.
pub fail_closed-live :
    (environment : Environment) (enabled : Bool)
    → (fail_closed live environment enabled ≡ none → (enabled ≡ true) × (environment ≡ production))
      × ((enabled ≡ true) × (environment ≡ production)
          → fail_closed live environment enabled ≡ none)
unfolding fail_closed
fail_closed-live environment enabled = ground arith
