-- ===== src/Portfolio.antt =====
-- execution/risk2.py: the portfolio's limits, the sizing and the drawdown governor. A symbol that the
-- sector map does not hold has no sector; the code's map gives no empty names.
pub mod Governor
pub mod Sizing
pub mod Restart
pub mod Samples
mod Tests
use liquidity_bot.Prelude.{
  ℕ, ◌+◌, ◌*◌, ◌^◌, ◌≡◌, refl, Bool, true, false, not, ◌&&◌, ◌||◌, Option, none, some, List, [],
  ◌∷◌, ltb, leb, ◌==◌, if◌then◌else◌, Dict, lookup, contains, keys,
}
use liquidity_bot.Float.{Float, ◌⊕◌, ◌⊖◌, ◌⊗◌, ◌⊘◌, lit, ratio, le, lt, min, max, abs}
use liquidity_bot.Models.{Symbol, Time, Position, Signal}
use liquidity_bot.Models.Features.{FeatureVector}
use liquidity_bot.Ledger.{RiskLedger, Kind, halt, DayState, append, load_day}

pub record PortfolioRiskConfig (F : Type 0) : Type 0 where
  pub max_gross_exposure_usd : F
  pub max_net_exposure_usd : F
  pub max_positions_per_sector : ℕ
  pub max_positions_per_cluster : ℕ
  pub sector_map : Dict ℕ
  pub clusters : List (List Symbol)
  pub target_daily_vol_usd : F
  pub vol_size_floor : F
  pub vol_size_cap : F
  pub dd_soft_usd : F
  pub dd_hard_usd : F
  pub dd_halt_usd : F
  pub regime_multipliers : F × F × F

pub record PortfolioRisk (F : Type 0) : Type 0 where
  pub cfg : PortfolioRiskConfig F
  pub ledger : RiskLedger F
  pub peak_pnl : F
  pub realized : F
  pub halted : Bool

pub data Gate : Type 0 where
  approved drawdown_halted gross_exposure net_exposure correlation_cluster_limit : Gate
  sector_limit : ℕ → Gate

-- `sum(1 for s in open_positions if test(s))`
unfoldable pub count_open : (Symbol → Bool) → List Symbol → ℕ
count_open test [] = 0
count_open test (s ∷ ss) = (if test s then 1 else 0) + count_open test ss

abbrev pub in_sector : Dict ℕ → ℕ → Symbol → Bool
in_sector sectors sector s = elim (lookup s sectors) [ none ↦ false | some other ↦ other == sector ]

unfoldable pub cluster_full : List Symbol → ℕ → Symbol → List (List Symbol) → Bool
cluster_full positions most s [] = false
cluster_full positions most s (cluster ∷ clusters) =
    contains s cluster && leb most (count_open (λ t. contains t cluster) positions)
    || cluster_full positions most s clusters

module _ {F : Type 0} ⦃f : Float F⦄ where
  unfoldable pub restore : ℕ → PortfolioRisk F → PortfolioRisk F
  unfolding max
  restore today p =
      let day = load_day today p.ledger in
      record p {
        realized = day.realized_pnl;
        peak_pnl = max (lit 0) day.realized_pnl;
        halted = day.halted;
      }

  -- the drawdown test of `on_trade_closed`
  unfoldable pub halt_on_drawdown : ℕ → PortfolioRisk F → PortfolioRisk F
  halt_on_drawdown today p =
      if le p.cfg.dd_halt_usd (p.peak_pnl ⊖ p.realized) && not p.halted
      then record p { halted = true; ledger = append today halt p.ledger }
      else p

  unfoldable pub on_trade_closed : ℕ → F → PortfolioRisk F → PortfolioRisk F
  on_trade_closed today pnl p =
      let realized = p.realized ⊕ pnl in
      halt_on_drawdown today (record p { realized = realized; peak_pnl = max p.peak_pnl realized })

  unfoldable pub sector_verdict : List Symbol → PortfolioRiskConfig F → Symbol → Option Gate
  sector_verdict positions c s = elim (lookup s c.sector_map) [
    | none ↦ none
    | some sector ↦
        if leb c.max_positions_per_sector (count_open (in_sector c.sector_map sector) positions)
        then some (sector_limit sector)
        else none
  ]

  unfoldable pub approve : Signal F → List Symbol → F → F → F → PortfolioRisk F → Bool × Gate
  approve sig positions gross net reserved p =
      if p.halted
      then (false, drawdown_halted)
      else if le p.cfg.max_gross_exposure_usd (gross ⊕ reserved)
      then (false, gross_exposure)
      else if le p.cfg.max_net_exposure_usd (abs net)
      then (false, net_exposure)
      else elim (sector_verdict positions p.cfg sig.symbol) [
        | some limit ↦ (false, limit)
        | none ↦
            if cluster_full positions p.cfg.max_positions_per_cluster sig.symbol p.cfg.clusters
            then (false, correlation_cluster_limit)
            else (true, approved)
      ]

  -- `regime_multipliers[min(max(vol_regime, 0), 2)]`
  unfoldable pub regime_multiplier : F × F × F → ℕ → F
  regime_multiplier m r = if r == 0 then m.0 else if r == 1 then m.1 else m.2

  unfoldable pub vol_scale : PortfolioRiskConfig F → FeatureVector F → F → F
  unfolding max min
  vol_scale c v m =
      let ref_vol =
        c.target_daily_vol_usd ⊘ max c.max_gross_exposure_usd (ratio 1 (10 ^ 9)) ⊗ lit 10_000 in
      if lt (ratio 1 (10 ^ 9)) v.realized_vol_bps
      then m ⊗ max c.vol_size_floor (min c.vol_size_cap (ref_vol ⊘ v.realized_vol_bps))
      else m

  unfoldable pub drawdown_scale : PortfolioRiskConfig F → F → F → F
  drawdown_scale c dd m =
      if le c.dd_hard_usd dd
      then m ⊗ ratio 25 100
      else if le c.dd_soft_usd dd
      then m ⊗ ratio 5 10
      else m

  unfoldable pub size_multiplier : FeatureVector F → PortfolioRisk F → F
  size_multiplier v p =
      let m = vol_scale p.cfg v (regime_multiplier p.cfg.regime_multipliers v.vol_regime) in
      max (lit 0) (min p.cfg.vol_size_cap (drawdown_scale p.cfg (p.peak_pnl ⊖ p.realized) m))
