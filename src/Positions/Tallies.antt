-- ===== src/Positions/Tallies.antt =====
-- execution/positions.py: the trade that a position's exit fills come to.
use liquidity_bot.Prelude.{Option, List, none, some, [], ◌∷◌}
use liquidity_bot.Float.{Float}
use liquidity_bot.Models.{Side, Fill}
use liquidity_bot.Positions.{ExitReason, ClosedTrade, PositionManager, on_exit_fill}
use liquidity_bot.Positions.Accounts.{Account, chunk}

module _ {F : Type 0} ⦃f : Float F⦄ where
  abbrev pub tally : Side → F → List (Fill F) → Account F → Account F
  tally side price [] a = a
  tally side price (fill ∷ fills) a = tally side price fills (chunk side price fill a)

  -- the trades that exit fills report, in order
  abbrev report : Option (ClosedTrade F) → List (ClosedTrade F) → List (ClosedTrade F)
  report none trades = trades
  report (some trade) trades = trade ∷ trades

  unfoldable pub exit_all :
      ExitReason → List (Fill F) → PositionManager F → PositionManager F × List (ClosedTrade F)
  exit_all r [] pm = (pm, [])
  exit_all r (fill ∷ fills) pm =
      let (pm', t) = on_exit_fill fill r pm in
      let (pm'', trades) = exit_all r fills pm' in (pm'', report t trades)
