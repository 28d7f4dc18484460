-- ===== src/Portfolio/Samples.antt =====
-- execution/risk2.py: a portfolio's risk that tests use.
use liquidity_bot.Prelude.{Bool, [], ◌∷◌}
use liquidity_bot.Float.Fixed.{ℤ, num}
use liquidity_bot.LogFile.{empty_file}
use liquidity_bot.Portfolio.{PortfolioRiskConfig, PortfolioRisk}

abbrev pub config : PortfolioRiskConfig ℤ
config = record {
  max_gross_exposure_usd = num 20000 1;
  max_net_exposure_usd = num 12000 1;
  max_positions_per_sector = 3;
  max_positions_per_cluster = 2;
  sector_map = (1, 8) ∷ (2, 8) ∷ [];
  clusters = (1 ∷ 2 ∷ 3 ∷ []) ∷ [];
  target_daily_vol_usd = num 300 1;
  vol_size_floor = num 1 4;
  vol_size_cap = num 3 2;
  dd_soft_usd = num 150 1;
  dd_hard_usd = num 300 1;
  dd_halt_usd = num 450 1;
  regime_multipliers = (num 1 1, num 1 1, num 1 2);
}

-- a day that has won 200 at its peak and stands at zero
abbrev pub day : PortfolioRisk ℤ
day = record {
  cfg = config;
  ledger = empty_file;
  peak_pnl = num 200 1;
  realized = num 0 1;
  halted = Bool.false;
}
