-- ===== src/Risk/Samples.antt =====
-- execution/risk.py: a risk manager that tests use.
use liquidity_bot.Prelude.{none, []}
use liquidity_bot.Float.Fixed.{ℤ, num}
use liquidity_bot.Models.Samples.{risk_config}
use liquidity_bot.Risk.{RiskManager}

abbrev pub manager : RiskManager ℤ
manager = record {
  cfg = risk_config;
  positions = [];
  realized_pnl = num 0 1;
  consecutive_losses = 0;
  symbol_cooldown_until = [];
  strategy_cooldown_until = none;
  retries = [];
}
