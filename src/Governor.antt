-- ===== src/Governor.antt =====
-- strategy/governor.py: the gate before the scoring. The reasons of a verdict are constructors.
pub mod Verdicts
pub mod Samples
mod Tests
use liquidity_bot.Prelude.{
  ℕ, ◌≡◌, refl, Bool, true, false, not, ◌&&◌, ◌||◌, List, [], ◌∷◌, ◌++◌, ltb, if◌then◌else◌,
  contains,
}
use liquidity_bot.Float.{Float, ◌⊖◌, ◌⊗◌, lit, ratio, le, lt, neg, abs}
use liquidity_bot.Models.{Time, GovernorAction, reversal, continuation, no_trade}
use liquidity_bot.Models.Features.{FeatureVector}
use liquidity_bot.Config.{GovernorConfig, StrategyConfig}
use liquidity_bot.Health.{DataHealthMonitor, Health, is_healthy}

pub data Reason : Type 0 where
  unhealthy : Health → Reason
  verified_catalyst earnings_window open_blackout close_blackout vol_out_of_bounds : Reason
  spread_unstable insufficient_events residual_below_entry volume_unremarkable : Reason
  breadth_trend_day sector_momentum_confirms peers_confirm_move impact_still_rising : Reason
  no_continuation_confluence : Reason

pub record StrategyGovernor (F : Type 0) : Type 0 where
  pub cfg : GovernorConfig F
  pub strat : StrategyConfig F
  pub health : DataHealthMonitor
  pub session_minutes : F
  pub market_breadth : F
  pub sector_momentum : F

abbrev pub Decision : Type 0
Decision = GovernorAction × List Reason

-- `reasons.append(r)` under a test
abbrev pub note : Bool → Reason → List Reason
note true r = r ∷ []
note false r = []

module _ {F : Type 0} ⦃f : Float F⦄ where
  unfoldable pub update_context : F → F → StrategyGovernor F → StrategyGovernor F
  update_context breadth momentum g = record g {
    market_breadth = breadth;
    sector_momentum = momentum;
  }

  -- `move_dir`
  unfoldable pub move_dir : FeatureVector F → F
  move_dir v = if lt (lit 0) v.residual_z then lit 1 else neg (lit 1)

  -- the tests specific to reversals: what `reasons` holds after them
  unfoldable pub reversal_reasons : StrategyGovernor F → FeatureVector F → List Reason
  reversal_reasons g v =
      note (lt g.cfg.max_breadth_for_reversal (abs g.market_breadth)) breadth_trend_day
      ++ note
          (lt (lit 0) (move_dir v ⊗ g.sector_momentum) && lt (ratio 2 1000) (abs g.sector_momentum))
          sector_momentum_confirms
      ++ note (lt g.strat.max_peer_confirmation_for_reversal v.peer_confirmation) peers_confirm_move
      ++ note (le v.impact_decay (lit 0)) impact_still_rising

  -- `cont_ok`
  unfoldable pub continues : StrategyGovernor F → FeatureVector F → Bool
  continues g v =
      le g.strat.min_peer_confirmation_for_continuation v.peer_confirmation
      && lt v.impact_decay (lit 0)
      && lt (ratio 15 100) (move_dir v ⊗ v.flow_imbalance)
      && lt (lit 0) (move_dir v ⊗ v.replenishment_skew)
      && lt v.spread_pctile (ratio 75 100)

  -- `decide` after the hard disables: a test fails exactly if it appends a reason
  unfoldable pub choose : StrategyGovernor F → FeatureVector F → Decision
  choose g v = verdict (reversal_reasons g v)
    where
      verdict : List Reason → Decision
      verdict [] = (reversal, [])
      verdict (r ∷ rs) =
          if continues g v
          then (continuation, r ∷ rs)
          else (no_trade, (r ∷ rs) ++ (no_continuation_confluence ∷ []))

  -- the hard disables after the one on the stream's health
  unfoldable pub decide_healthy : FeatureVector F → StrategyGovernor F → Decision
  decide_healthy v g =
      if contains v.symbol g.cfg.catalyst_blacklist
      then (no_trade, verified_catalyst ∷ [])
      else if contains v.symbol g.cfg.earnings_blacklist
      then (no_trade, earnings_window ∷ [])
      else if lt v.minutes_since_open (ratio g.strat.no_trade_first_seconds 60)
      then (no_trade, open_blackout ∷ [])
      else if lt (g.session_minutes ⊖ ratio g.strat.no_trade_last_seconds 60) v.minutes_since_open
      then (no_trade, close_blackout ∷ [])
      else if not (
          le g.cfg.min_realized_vol_bps v.realized_vol_bps
          && le v.realized_vol_bps g.cfg.max_realized_vol_bps)
      then (no_trade, vol_out_of_bounds ∷ [])
      else if lt g.cfg.max_spread_pctile_for_entry v.spread_pctile
      then (no_trade, spread_unstable ∷ [])
      else if ltb v.event_count g.strat.min_events
      then (no_trade, insufficient_events ∷ [])
      else if lt (abs v.residual_z) g.strat.residual_z_entry
      then (no_trade, residual_below_entry ∷ [])
      else if lt v.volume_z g.strat.min_volume_z
      then (no_trade, volume_unremarkable ∷ [])
      else choose g v

  unfoldable pub decide : FeatureVector F → Time → StrategyGovernor F → Decision
  decide v now g =
      let (ok, why) = is_healthy v.symbol now g.health in
      if g.cfg.require_healthy_stream && not ok
      then (no_trade, unhealthy why ∷ [])
      else decide_healthy v g
