-- ===== src/Session/Tests.antt =====
-- The properties at the next fill of an order of which half is filled.
use liquidity_bot.Prelude.{◌≡◌, refl, some, [], lookup}
use liquidity_bot.LogFile.{empty_file}
use liquidity_bot.Float.Fixed.{fixed}
use liquidity_bot.Models.Samples.{signal}
use liquidity_bot.Orders.{ok, remaining}
use liquidity_bot.Orders.Methods.{book_fill}
use liquidity_bot.Orders.Samples.{fill, half}
use liquidity_bot.Risk.Samples.{manager}
use liquidity_bot.Portfolio.Samples.{day}
use liquidity_bot.Positions.{opened}
use liquidity_bot.Session.{on_fill}
use liquidity_bot.Session.Samples.{flat, engine}
use liquidity_bot.Session.Completions.{on_fill-loses}
use liquidity_bot.Session.Partials.{on_fill-enters}

on_fill-loses_example :
    ((on_fill 40 6 (fill 50) (engine half)).0 ≡ ok tt)
    × ((on_fill 40 6 (fill 50) (engine half)).1.pm ≡ flat)
    × ((on_fill 40 6 (fill 50) (engine half)).1.pos_log ≡ empty_file)
    × ((on_fill 40 6 (fill 50) (engine half)).1.risk ≡ manager)
    × ((on_fill 40 6 (fill 50) (engine half)).1.risk2 ≡ day)
    × ((on_fill 40 6 (fill 50) (engine half)).1.tracks ≡ [])
unfolding book_fill remaining
on_fill-loses_example =
    on_fill-loses 40 6 (fill 50) (engine half) half refl refl refl refl refl refl

on_fill-enters_example :
    ((on_fill 40 6 (fill 25) (engine half)).0 ≡ ok tt)
    × (lookup 1 (on_fill 40 6 (fill 25) (engine half)).1.pm.positions
        ≡ some (opened (fill 25) signal))
    × (lookup 1 (on_fill 40 6 (fill 25) (engine half)).1.risk.positions
        ≡ some (opened (fill 25) signal))
unfolding book_fill remaining
on_fill-enters_example =
    on_fill-enters 40 6 (fill 25) signal (engine half) half refl refl refl refl refl refl
