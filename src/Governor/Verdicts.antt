-- ===== src/Governor/Verdicts.antt =====
-- strategy/governor.py: what a verdict that permits trading has been checked for.
use liquidity_bot.Prelude.{◌≡◌, ◌≢◌, ◌≤◌, true, false, arith, contains}
use liquidity_bot.Float.{Float, ◌⊖◌, ◌⊗◌, ◌≼◌, ◌≺◌, lit, ratio, le, lt, abs}
use liquidity_bot.Models.{Time, GovernorAction, reversal, continuation, no_trade}
use liquidity_bot.Models.Features.{FeatureVector}
use liquidity_bot.Health.{is_healthy}
use liquidity_bot.Governor.{
  StrategyGovernor, move_dir, reversal_reasons, continues, choose, decide_healthy, decide,
}

module _ {F : Type 0} ⦃f : Float F⦄ where
  -- The limits that every permission respects. The tests on floats are refusals, as in the code.
  pub record Tradable (v : FeatureVector F) (now : Time) (g : StrategyGovernor F) : Type 0 where
    pub stream : g.cfg.require_healthy_stream ≡ true → (is_healthy v.symbol now g.health).0 ≡ true
    pub no_catalyst : contains v.symbol g.cfg.catalyst_blacklist ≡ false
    pub no_earnings : contains v.symbol g.cfg.earnings_blacklist ≡ false
    pub after_open : lt v.minutes_since_open (ratio g.strat.no_trade_first_seconds 60) ≡ false
    pub before_close :
        lt (g.session_minutes ⊖ ratio g.strat.no_trade_last_seconds 60) v.minutes_since_open ≡ false
    pub vol_above : g.cfg.min_realized_vol_bps ≼ v.realized_vol_bps
    pub vol_below : v.realized_vol_bps ≼ g.cfg.max_realized_vol_bps
    pub spread_stable : lt g.cfg.max_spread_pctile_for_entry v.spread_pctile ≡ false
    pub events : g.strat.min_events ≤ v.event_count
    pub residual : lt (abs v.residual_z) g.strat.residual_z_entry ≡ false
    pub volume : lt v.volume_z g.strat.min_volume_z ≡ false

  decide-healthy :
      (v : FeatureVector F) (now : Time) (g : StrategyGovernor F)
      → (decide v now g).0 ≢ no_trade
      → (decide v now g ≡ decide_healthy v g)
        × (g.cfg.require_healthy_stream ≡ true → (is_healthy v.symbol now g.health).0 ≡ true)
  unfolding decide
  decide-healthy v now g h = (ground arith, λ required. ground arith)

  decide_healthy-chooses :
      (v : FeatureVector F) (g : StrategyGovernor F)
      → (decide_healthy v g).0 ≢ no_trade
      → decide_healthy v g ≡ choose g v
  unfolding decide_healthy
  decide_healthy-chooses v g h = ground arith

  -- A verdict other than NO_TRADE is given only where every hard limit is respected.
  pub decide-Tradable :
      (v : FeatureVector F) (now : Time) (g : StrategyGovernor F)
      → (decide v now g).0 ≢ no_trade
      → Tradable v now g
  unfolding decide_healthy
  decide-Tradable v now g h =
      let (same, stream) = decide-healthy v now g h in
      let k : (decide_healthy v g).0 ≢ no_trade = rw same at h in
      record {
        stream = stream;
        no_catalyst = ground arith;
        no_earnings = ground arith;
        after_open = ground arith;
        before_close = ground arith;
        vol_above = ground arith;
        vol_below = ground arith;
        spread_stable = ground arith;
        events = ground arith;
        residual = ground arith;
        volume = ground arith;
      }

  -- what distinguishes the two permissions
  abbrev pub Confirms : StrategyGovernor F → FeatureVector F → GovernorAction → Type 0
  Confirms g v reversal =
      (le v.impact_decay (lit 0) ≡ false)
      × (lt g.strat.max_peer_confirmation_for_reversal v.peer_confirmation ≡ false)
      × (lt g.cfg.max_breadth_for_reversal (abs g.market_breadth) ≡ false)
  Confirms g v continuation =
      (v.impact_decay ≺ lit 0)
      × (g.strat.min_peer_confirmation_for_continuation ≼ v.peer_confirmation)
      × (ratio 15 100 ≺ move_dir v ⊗ v.flow_imbalance)
  Confirms g v no_trade = Unit {0}

  choose-Confirms : (g : StrategyGovernor F) (v : FeatureVector F) → Confirms g v (choose g v).0
  unfolding choose reversal_reasons continues
  choose-Confirms g v = ground arith

  -- A REVERSAL needs an impact that decays, peers that do not confirm the move and a market without
  -- a trend; a CONTINUATION an impact that rises, peers that confirm it and a flow in its direction.
  pub decide-Confirms :
      (v : FeatureVector F) (now : Time) (g : StrategyGovernor F) → Confirms g v (decide v now g).0
  unfolding decide decide_healthy
  decide-Confirms v now g = ground (arith, choose-Confirms g v)
