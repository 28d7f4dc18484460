-- ===== src/PaperBroker/Tests.antt =====
-- A resting buy and a print at its limit.
use liquidity_bot.Prelude.{◌≡◌, refl, false, none, some}
use liquidity_bot.Float.{abs, min}
use liquidity_bot.Float.Fixed.{ℤ, num, fixed, fixed-IsOrdered}
use liquidity_bot.Models.{Trade, rth}
use liquidity_bot.Config.{PaperFillConfig}
use liquidity_bot.Orders.Samples.{request}
use liquidity_bot.PaperBroker.{RestingOrder, trade_turn, priced_turn, at_limit, fill_at}
use liquidity_bot.PaperBroker.Limits.{Sound, trade_turn-Sound}

abbrev config : PaperFillConfig ℤ
config = record {
  latency_ms = 150;
  cancel_latency_ms = 150;
  queue_position_factor = num 1 1;
  require_trade_through = false;
  marketable_max_take_fraction = num 1 4;
  adverse_selection_bps = num 1 1;
  partial_fill_min_shares = num 1 1;
}

abbrev order : RestingOrder ℤ
order = record {
  request = request;
  active_at = 150_000;
  queue_ahead = num 20 1;
  filled = num 0 1;
  trade_through_seen = false;
  cancel_at = none;
}

abbrev print : Trade ℤ
print = record {
  symbol = 1;
  ts = 900_000;
  price = num 10 1;
  size = num 50 1;
  aggressor = none;
  session = rth;
  seq = none;
  recv_ts = 900_000;
}

-- twenty of the fifty shares go to the queue ahead
rests :
    (trade_turn config print 900_000 7 order).order
    ≡ some (record order { queue_ahead = num 0 1; filled = num 30 1 })
unfolding trade_turn priced_turn at_limit fill_at min abs
rests = refl

trade_turn-Sound_example : Sound order (trade_turn config print 900_000 7 order)
trade_turn-Sound_example = trade_turn-Sound fixed-IsOrdered config print 900_000 7 order refl
