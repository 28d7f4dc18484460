-- ===== src/Risk.antt =====
-- execution/risk.py: the pre-trade gates, the sizing and the daily accounts. `now` and the marks are
-- always given; a reason is a constructor of `Gate`.
pub mod Gates
pub mod Sizing
pub mod Streaks
pub mod Samples
mod Tests
use liquidity_bot.Prelude.{
  ℕ, ◌+◌, ◌*◌, ◌≡◌, refl, Bool, true, false, not, ◌&&◌, ◌||◌, Option, none, some, List, [], ◌∷◌,
  ltb, leb, if◌then◌else◌, Dict, lookup, has_key, get_or, insert, erase, length,
}
use liquidity_bot.Float.{Float, ◌⊕◌, ◌⊖◌, ◌⊗◌, ◌⊘◌, lit, le, lt, neg, min, abs, trunc}
use liquidity_bot.Models.{Symbol, Time, Position, Signal}
use liquidity_bot.Models.Features.{FeatureVector}
use liquidity_bot.Config.{RiskConfig}

pub data Gate : Type 0 where
  approved kill_switch daily_loss_limit strategy_cooldown symbol_cooldown position_exists : Gate
  max_positions spread_too_wide stale_feature max_retries zero_size symbol_notional_limit : Gate
  gross_exposure_limit : Gate

pub record RiskManager (F : Type 0) : Type 0 where
  pub cfg : RiskConfig F
  pub positions : Dict (Position F)
  pub realized_pnl : F
  pub consecutive_losses : ℕ
  pub symbol_cooldown_until : Dict Time
  pub strategy_cooldown_until : Option Time
  pub retries : Dict ℕ

-- `now < until`, where there is a time to wait for
abbrev pub is_waiting : Option Time → Time → Bool
is_waiting none now = false
is_waiting (some until) now = ltb now until

module _ {F : Type 0} ⦃f : Float F⦄ where
  -- the first `if` of `on_trade_closed`
  unfoldable pub count_result : Symbol → F → Time → RiskManager F → RiskManager F
  count_result symbol pnl now r =
      let r' = record r { realized_pnl = r.realized_pnl ⊕ pnl } in
      if lt pnl (lit 0)
      then record r' {
        consecutive_losses = r.consecutive_losses + 1;
        symbol_cooldown_until =
            insert symbol (now + r.cfg.symbol_cooldown_seconds * 1_000_000) r.symbol_cooldown_until;
      }
      else record r' { consecutive_losses = 0 }

  -- the second
  unfoldable pub pause : Time → RiskManager F → RiskManager F
  pause now r =
      if leb r.cfg.max_consecutive_losses r.consecutive_losses
      then record r {
        strategy_cooldown_until = some (now + r.cfg.strategy_cooldown_seconds * 1_000_000);
        consecutive_losses = 0;
      }
      else r

  unfoldable pub on_trade_closed : Symbol → F → Time → RiskManager F → RiskManager F
  unfolding count_result pause
  on_trade_closed symbol pnl now r =
      let r' = pause now (count_result symbol pnl now r) in
      record r' { positions = erase symbol r'.positions }

  unfoldable pub sum_exposure : F → Dict F → Dict (Position F) → F
  sum_exposure acc marks [] = acc
  sum_exposure acc marks ((s, p) ∷ d) =
      sum_exposure (acc ⊕ p.quantity ⊗ get_or s p.entry_price marks) marks d

  unfoldable pub gross_exposure : Dict F → RiskManager F → F
  unfolding sum_exposure
  gross_exposure marks r = sum_exposure (lit 0) marks r.positions

  -- A reference price of zero, at which Python's division raises, and infinite or undefined values, on
  -- which `int` raises, are outside the model: its division and truncation are total.
  unfoldable pub size : RiskConfig F → Signal F → F
  unfolding abs min
  size cfg s =
      let stop_distance = abs (s.reference_price ⊖ s.stop_price) in
      if le stop_distance (lit 0)
      then lit 0
      else trunc (
          min
            (min (cfg.risk_per_trade_usd ⊘ stop_distance)
              (cfg.max_notional_per_symbol_usd ⊘ s.reference_price))
            cfg.max_position_shares)

  -- the gates on the size, for the quantity that `size` gives
  unfoldable pub check_size : Dict F → F → F → RiskManager F → Bool × Gate
  check_size marks qty notional r =
      if le qty (lit 0)
      then (false, zero_size)
      else if lt r.cfg.max_notional_per_symbol_usd notional
      then (false, symbol_notional_limit)
      else if lt r.cfg.max_gross_exposure_usd (gross_exposure marks r ⊕ notional)
      then (false, gross_exposure_limit)
      else (true, approved)

  unfoldable pub approve : Signal F → FeatureVector F → Dict F → Time → RiskManager F → Bool × Gate
  approve s v marks now r =
      let qty = size r.cfg s in
      if r.cfg.kill_switch
      then (false, kill_switch)
      else if le r.realized_pnl (neg r.cfg.max_daily_loss_usd)
      then (false, daily_loss_limit)
      else if is_waiting r.strategy_cooldown_until now
      then (false, strategy_cooldown)
      else if is_waiting (lookup s.symbol r.symbol_cooldown_until) now
      then (false, symbol_cooldown)
      else if has_key s.symbol r.positions
      then (false, position_exists)
      else if leb r.cfg.max_positions (length r.positions)
      then (false, max_positions)
      else if lt r.cfg.max_spread_bps v.spread_bps
      then (false, spread_too_wide)
      else if ltb (v.ts + r.cfg.stale_data_ms * 1000) now
      then (false, stale_feature)
      else if ltb r.cfg.max_order_retries (get_or s.symbol 0 r.retries)
      then (false, max_retries)
      else check_size marks qty (qty ⊗ s.reference_price) r
