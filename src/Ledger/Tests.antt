-- ===== src/Ledger/Tests.antt =====
-- A buy of two fills that has been reduced by half, and the positions rebuilt from the log.
use liquidity_bot.Prelude.{refl, Bool, [], ◌∷◌, lookup}
use liquidity_bot.Float.Fixed.{ℤ, num, fixed, fixed-IsOrdered}
use liquidity_bot.Models.{Fill, sell}
use liquidity_bot.Models.Samples.{signal}
use liquidity_bot.Orders.Samples.{fill}
use liquidity_bot.Positions.{PositionManager, target}
use liquidity_bot.Ledger.PositionLog.{rebuild_positions}
use liquidity_bot.Ledger.Recovery.{Op, enters, leaves, perform_all, Refines, rebuild-Refines}
use mathlib.Core.List.{List}
use liquidity_bot.LogFile.{empty_file}

abbrev flat : PositionManager ℤ
flat = record {
  max_spread_bps_exit = num 20 1;
  adverse_micro_bps = num 3 1;
  adverse_micro_persist = 3;
  closed = [];
  positions = [];
  micro_adverse_count = [];
  emergency = Bool.false;
}

abbrev sold : Fill ℤ
sold = record (fill 50) { side = sell; client_order_id = 8 }

abbrev ops : List (Op ℤ)
ops = enters (fill 50) signal ∷ enters (fill 50) signal ∷ leaves sold target ∷ []

rebuild-Refines_example :
    Refines
      (lookup 1 (rebuild_positions (perform_all ops (flat, empty_file)).1))
      (lookup 1 (perform_all ops (flat, empty_file)).0.positions)
rebuild-Refines_example = rebuild-Refines fixed-IsOrdered flat ops 1 refl
