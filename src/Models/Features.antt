-- ===== src/Models/Features.antt =====
-- core/models.py: `FeatureVector`.
use liquidity_bot.Prelude.{ℕ}

pub record FeatureVector (F : Type 0) : Type 0 where
  pub symbol : ℕ
  pub ts : ℕ
  pub mid : F
  pub spread_bps : F
  pub spread_pctile : F
  pub residual_return : F
  pub residual_z : F
  pub flow_imbalance : F
  pub impact_decay : F
  pub replenishment_skew : F
  pub microprice_bps : F
  pub peer_confirmation : F
  pub depth_imbalance : F
  pub near_touch_ratio : F
  pub queue_depletion : F
  pub volume_z : F
  pub vwap_distance_bps : F
  pub realized_vol_bps : F
  pub minutes_since_open : F
  pub event_count : ℕ
  pub residual_velocity : F
  pub residual_acceleration : F
  pub residual_vol_z : F
  pub peer_confirm_latency_s : F
  pub sector_confirm_latency_s : F
  pub replenishment_confidence : F
  pub vol_regime : ℕ
  pub tod_bucket : ℕ
  pub noii_pressure : F
  pub data_confidence : F
