-- ===== src/Session/Samples.antt =====
-- runtime.py: an engine with an order of which half is filled, which tests use.
use liquidity_bot.Prelude.{false, [], ◌∷◌}
use liquidity_bot.LogFile.{empty_file}
use liquidity_bot.Float.Fixed.{ℤ, num}
use liquidity_bot.Models.{Intent}
use liquidity_bot.Models.Samples.{signal}
use liquidity_bot.Orders.{ManagedOrder}
use liquidity_bot.Orders.Samples.{request, half}
use liquidity_bot.Fsm.Samples.{config}
use liquidity_bot.Risk.Samples.{manager}
use liquidity_bot.Portfolio.Samples.{day}
use liquidity_bot.Positions.{PositionManager, target}
use liquidity_bot.Session.{SessionEngine}

abbrev pub flat : PositionManager ℤ
flat = record {
  max_spread_bps_exit = num 20 1;
  adverse_micro_bps = num 3 1;
  adverse_micro_persist = 3;
  closed = [];
  positions = [];
  micro_adverse_count = [];
  emergency = false;
}

abbrev pub engine : ManagedOrder ℤ → SessionEngine ℤ
engine o = record {
  om = record { max_gross_notional = num 5000 1; orders = (7, o) ∷ []; journal = []; ended = [] };
  pm = flat;
  risk = manager;
  risk2 = day;
  fsm = config;
  tracks = [];
  pos_log = empty_file;
  pending_sig = (7, signal) ∷ [];
  pending_exit = (7, target) ∷ [];
}

-- the same order, as one that exits
abbrev pub exiting : ManagedOrder ℤ
exiting = record half { request = record request { intent = Intent.exit } }
