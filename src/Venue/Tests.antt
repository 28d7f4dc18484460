-- ===== src/Venue/Tests.antt =====
-- A working order at a quote that offers less than it asks for.
use liquidity_bot.Prelude.{◌≡◌, refl, none}
use liquidity_bot.Float.{◌≼◌, max, min}
use liquidity_bot.Float.Fixed.{ℤ, num, fixed, fixed-IsOrdered}
use liquidity_bot.Models.{Trade, rth}
use liquidity_bot.Models.Samples.{quote}
use liquidity_bot.Venue.{at_limit, remaining, add_fill, mk_fill, offered, close_out, aggress}
use liquidity_bot.Venue.Samples.{config, order, resting, venue}
use liquidity_bot.Venue.Limits.{total, aggress-total, at_limit-total}

-- a quarter of the 300 shares that are displayed
takes_75 : total fixed-IsOrdered (aggress config quote 7 order).1 ≡ num 75 1
unfolding total aggress offered close_out add_fill mk_fill remaining max min
takes_75 = refl

aggress-total_example : total fixed-IsOrdered (aggress config quote 7 order).1 ≼ remaining order
aggress-total_example = aggress-total fixed-IsOrdered config quote 7 order

abbrev print : Trade ℤ
print = record {
  symbol = 1;
  ts = 900_000;
  price = num 999 100;
  size = num 30 1;
  aggressor = none;
  session = rth;
  seq = none;
  recv_ts = 900_000;
}

at_limit-total_example :
    total fixed-IsOrdered (at_limit (λ _. num 1 4) venue print 0 (num 10 1) 7 resting).1.1
    ≼ remaining resting
at_limit-total_example =
    at_limit-total fixed-IsOrdered (λ _. num 1 4) venue print 0 (num 10 1) 7 resting
