-- ===== src/Risk/Gates.antt =====
-- execution/risk.py: what `approve` lets through, and what a loss blocks.
use liquidity_bot.Prelude.{
  ◌+◌, ◌*◌, ◌<◌, ◌≤◌, ◌≡◌, ap, ◌∙◌, Bool, true, false, Option, none, some, arith, Bool-cases, inl,
  inr, Dict, lookup, get_or, length, lookup-insert_self,
}
use liquidity_bot.Float.{Float, ◌⊕◌, ◌⊗◌, lit, le, lt, neg, ◌≺◌}
use liquidity_bot.Models.{Symbol, Time, Signal}
use liquidity_bot.Models.Features.{FeatureVector}
use liquidity_bot.Risk.{
  approved, RiskManager, is_waiting, count_result, pause, on_trade_closed, gross_exposure, size,
  check_size, approve,
}

module _ {F : Type 0} ⦃f : Float F⦄ where
  -- The limits of the configuration, as a signal of a given notional must meet them. The tests on
  -- floats are written as refusals, which a NaN would not meet.
  pub record Permits (r : RiskManager F) (s : Signal F) (v : FeatureVector F) (marks : Dict F)
      (now : Time) : Type 0 where
    pub no_kill : r.cfg.kill_switch ≡ false
    pub loss_within : le r.realized_pnl (neg r.cfg.max_daily_loss_usd) ≡ false
    pub strategy_ready : is_waiting r.strategy_cooldown_until now ≡ false
    pub symbol_ready : is_waiting (lookup s.symbol r.symbol_cooldown_until) now ≡ false
    pub no_position : lookup s.symbol r.positions ≡ none
    pub room : length r.positions < r.cfg.max_positions
    pub spread_within : lt r.cfg.max_spread_bps v.spread_bps ≡ false
    pub recent : now ≤ v.ts + r.cfg.stale_data_ms * 1000
    pub retries_within : get_or s.symbol 0 r.retries ≤ r.cfg.max_order_retries
    pub sized : le (size r.cfg s) (lit 0) ≡ false
    pub symbol_within :
        lt r.cfg.max_notional_per_symbol_usd (size r.cfg s ⊗ s.reference_price) ≡ false
    pub gross_within :
        lt r.cfg.max_gross_exposure_usd (gross_exposure marks r ⊕ size r.cfg s ⊗ s.reference_price)
        ≡ false

  -- `approve` answers true exactly if every limit is met.
  pub approve-iff-Permits :
      (s : Signal F) (v : FeatureVector F) (marks : Dict F) (now : Time) (r : RiskManager F)
      → ((approve s v marks now r).0 ≡ true → Permits r s v marks now)
        × (Permits r s v marks now → approve s v marks now r ≡ (true, approved))
  unfolding approve check_size
  approve-iff-Permits s v marks now r = (λ h. ground arith, λ h. ground arith)

  count_result-cooldown :
      (symbol : Symbol) (pnl : F) (now : Time) (r : RiskManager F)
      → pnl ≺ lit 0
      → lookup symbol (count_result symbol pnl now r).symbol_cooldown_until
        ≡ some (now + r.cfg.symbol_cooldown_seconds * 1_000_000)
  unfolding count_result
  count_result-cooldown symbol pnl now r h = rw h (
      lookup-insert_self symbol (now + r.cfg.symbol_cooldown_seconds * 1_000_000)
        r.symbol_cooldown_until)

  pause-cooldown :
      (now : Time) (r : RiskManager F)
      → (pause now r).symbol_cooldown_until ≡ r.symbol_cooldown_until
  unfolding pause
  pause-cooldown now r = ground arith

  -- After a losing trade no signal of its symbol is approved until the symbol's cooldown is over,
  -- whatever its size and the market are.
  pub loss-blocks :
      (symbol : Symbol) (pnl : F) (closed now : Time) (r : RiskManager F) (s : Signal F)
      (v : FeatureVector F) (marks : Dict F)
      → pnl ≺ lit 0
      → s.symbol ≡ symbol
      → now < closed + r.cfg.symbol_cooldown_seconds * 1_000_000
      → (approve s v marks now (on_trade_closed symbol pnl closed r)).0 ≡ false
  unfolding on_trade_closed
  loss-blocks symbol pnl closed now r s v marks h same early =
      let after = on_trade_closed symbol pnl closed r in
      let until : lookup s.symbol after.symbol_cooldown_until
          ≡ some (closed + r.cfg.symbol_cooldown_seconds * 1_000_000) =
        rw same (
          ap (lookup symbol) (pause-cooldown closed (count_result symbol pnl closed r))
          ∙ count_result-cooldown symbol pnl closed r h) in
      elim (Bool-cases (approve s v marks now after).0) [
        | inl passed ↦ waits until ((approve-iff-Permits s v marks now after).0 passed).symbol_ready
        | inr refused ↦ refused
      ]
    where
      waits :
          {o : Option Time} {b : Bool}
          → o ≡ some (closed + r.cfg.symbol_cooldown_seconds * 1_000_000)
          → is_waiting o now ≡ false
          → b ≡ false
      waits e k = ground arith
