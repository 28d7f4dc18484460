-- ===== src/Risk/Streaks.antt =====
-- execution/risk.py: the losing streak and the strategy's cooldown.
use liquidity_bot.Prelude.{
  ◌+◌, ◌*◌, ◌<◌, ◌≡◌, refl, ap, ◌∙◌, true, false, some, List, [], ◌∷◌, arith, All, length, ltb,
  Dict,
}
use liquidity_bot.Float.{Float, lit, ◌≺◌}
use liquidity_bot.Config.{RiskConfig}
use liquidity_bot.Models.Features.{FeatureVector}
use liquidity_bot.Models.{Symbol, Time, Signal}
use liquidity_bot.Risk.{RiskManager, count_result, pause, on_trade_closed, approve}

module _ {F : Type 0} ⦃f : Float F⦄ where
  -- the reports of closed trades, in order
  unfoldable pub close_all : List (Symbol × F × Time) → RiskManager F → RiskManager F
  close_all [] r = r
  close_all ((symbol, pnl, now) ∷ ts) r = close_all ts (on_trade_closed symbol pnl now r)

  pause-streak :
      (now : Time) (r : RiskManager F)
      → 0 < r.cfg.max_consecutive_losses
      → ((pause now r).cfg ≡ r.cfg)
        × ((pause now r).consecutive_losses < r.cfg.max_consecutive_losses)
  unfolding pause
  pause-streak now r h = ground arith

  count_result-cfg :
      (symbol : Symbol) (pnl : F) (now : Time) (r : RiskManager F)
      → (count_result symbol pnl now r).cfg ≡ r.cfg
  unfolding count_result
  count_result-cfg symbol pnl now r = ground arith

  closed-streak :
      (symbol : Symbol) (pnl : F) (now : Time) (r : RiskManager F)
      → 0 < r.cfg.max_consecutive_losses
      → ((on_trade_closed symbol pnl now r).cfg ≡ r.cfg)
        × ((on_trade_closed symbol pnl now r).consecutive_losses < r.cfg.max_consecutive_losses)
  unfolding on_trade_closed
  closed-streak symbol pnl now r h =
      let counted = count_result symbol pnl now r in
      let same = count_result-cfg symbol pnl now r in ground (arith, pause-streak now counted, same)

  -- With a limit above zero and a counter of consecutive losses below it, the counter stays below the
  -- limit after any closed trades.
  pub close_all-streak :
      (ts : List (Symbol × F × Time)) (r : RiskManager F)
      → 0 < r.cfg.max_consecutive_losses
      → r.consecutive_losses < r.cfg.max_consecutive_losses
      → ((close_all ts r).cfg ≡ r.cfg)
        × ((close_all ts r).consecutive_losses < r.cfg.max_consecutive_losses)
  unfolding close_all
  close_all-streak [] r h k = (refl, k)
  close_all-streak ((symbol, pnl, now) ∷ ts) r h k =
      let (same, within) = closed-streak symbol pnl now r h in
      ground (arith, close_all-streak ts (on_trade_closed symbol pnl now r), same)

  abbrev pub AreLosses : List (Symbol × F × Time) → Type 0
  AreLosses = All (λ t. f.lt t.1 (f.ratio 0 1) ≡ true)

  -- a loss that does not reach the limit
  short_loss :
      (symbol : Symbol) (pnl : F) (now : Time) (r : RiskManager F)
      → pnl ≺ lit 0
      → r.consecutive_losses + 1 < r.cfg.max_consecutive_losses
      → ((on_trade_closed symbol pnl now r).cfg ≡ r.cfg)
        × ((on_trade_closed symbol pnl now r).consecutive_losses ≡ r.consecutive_losses + 1)
  unfolding on_trade_closed count_result pause
  short_loss symbol pnl now r loss short = rw loss (ground arith)

  losses-count :
      (ts : List (Symbol × F × Time)) (r : RiskManager F)
      → AreLosses ts
      → r.consecutive_losses + length ts < r.cfg.max_consecutive_losses
      → ((close_all ts r).cfg ≡ r.cfg)
        × ((close_all ts r).consecutive_losses ≡ r.consecutive_losses + length ts)
  unfolding close_all
  losses-count [] r h k = (refl, omega arith)
  losses-count ((symbol, pnl, now) ∷ ts) r h k =
      let r' = on_trade_closed symbol pnl now r in
      let (same, more) = short_loss symbol pnl now r h.0 (omega arith) in
      let (same', count) =
        losses-count ts r' h.1 (omega (arith, more, ap (λ c. c.max_consecutive_losses) same)) in
      (same' ∙ same, omega (arith, count, more))

  -- the loss that reaches the limit
  last_loss :
      (symbol : Symbol) (pnl : F) (now : Time) (r : RiskManager F)
      → pnl ≺ lit 0
      → r.consecutive_losses + 1 ≡ r.cfg.max_consecutive_losses
      → let r' = on_trade_closed symbol pnl now r in
        (r'.consecutive_losses ≡ 0)
        × (r'.strategy_cooldown_until ≡ some (now + r.cfg.strategy_cooldown_seconds * 1_000_000))
  unfolding on_trade_closed count_result pause
  last_loss symbol pnl now r loss full = rw loss (ground arith)

  waiting-refuses :
      (sig : Signal F) (v : FeatureVector F) (marks : Dict F) (now until : Time) (r : RiskManager F)
      → r.strategy_cooldown_until ≡ some until
      → now < until
      → (approve sig v marks now r).0 ≡ false
  unfolding approve
  waiting-refuses sig v marks now until r e h =
      let waits : ltb now until ≡ true = ground arith in rw (e, waits) (ground arith)

  -- When the counter of consecutive losses and the losing trades that close next in a row, the last of
  -- them at `now`, together come to the limit, the counter starts again at zero, the strategy's cooldown
  -- runs for its length from `now`, and until its end no signal is approved.
  pub losses-pause :
      (ts : List (Symbol × F × Time)) (symbol : Symbol) (pnl : F) (now : Time) (r : RiskManager F)
      (sig : Signal F) (v : FeatureVector F) (marks : Dict F) (later : Time)
      → AreLosses ts
      → pnl ≺ lit 0
      → r.consecutive_losses + length ts + 1 ≡ r.cfg.max_consecutive_losses
      → later < now + r.cfg.strategy_cooldown_seconds * 1_000_000
      → let r' = on_trade_closed symbol pnl now (close_all ts r) in
        (r'.consecutive_losses ≡ 0)
        × (r'.strategy_cooldown_until ≡ some (now + r.cfg.strategy_cooldown_seconds * 1_000_000))
        × ((approve sig v marks later r').0 ≡ false)
  losses-pause ts symbol pnl now r sig v marks later losses loss full early =
      let (same, count) = losses-count ts r losses (omega arith) in
      let before = close_all ts r in
      let (cleared, paused) =
        last_loss symbol pnl now before loss
          (omega (arith, count, ap (λ c. c.max_consecutive_losses) same)) in
      let paused' =
        paused
        ∙ ap (λ (c : RiskConfig F). some (now + c.strategy_cooldown_seconds * 1_000_000)) same in
      (cleared, paused', waiting-refuses sig v marks later _ _ paused' early)
