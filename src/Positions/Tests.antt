-- ===== src/Positions/Tests.antt =====
-- A long position below its stop, and the properties at it.
use liquidity_bot.Prelude.{ℕ, ◌≡◌, refl, false, none, [], ◌∷◌, lookup}
use liquidity_bot.Float.{min}
use liquidity_bot.Float.Fixed.{ℤ, num, fixed}
use liquidity_bot.Models.{Fill, sell, signed}
use liquidity_bot.Models.Samples.{position}
use liquidity_bot.Orders.Samples.{fill}
use liquidity_bot.Positions.{
  closed_trade, PositionManager, ClosedTrade, target, reduced, settle_exit, on_exit_fill,
}

abbrev book : PositionManager ℤ
book = record {
  max_spread_bps_exit = num 20 1;
  adverse_micro_bps = num 3 1;
  adverse_micro_persist = 3;
  closed = [];
  positions = (1, position) ∷ [];
  micro_adverse_count = [];
  emergency = false;
}

abbrev sold : ℕ → Fill ℤ
sold shares = record (fill shares) { side = sell }

-- half of the position is sold at the entry price, and then more than the rest
flat_after :
    lookup 1 (on_exit_fill (sold 70) target (on_exit_fill (sold 50) target book).0).0.positions
    ≡ none
unfolding on_exit_fill settle_exit reduced min signed
flat_after = refl

-- the trade of the two fills
abbrev trade : ClosedTrade ℤ
trade = closed_trade (sold 70) target (reduced (sold 70) (reduced (sold 50) position))
