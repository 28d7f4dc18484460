-- ===== src/Risk/Tests.antt =====
-- A losing day of the risk manager, and the properties at it.
use liquidity_bot.Prelude.{arith, ◌+◌, ◌*◌, some, ◌≡◌, refl, true, false, List, [], ◌∷◌}
use liquidity_bot.Float.{◌⊖◌, ◌⊘◌, ◌≼◌, lit, le, neg, abs}
use liquidity_bot.Float.Fixed.{ℤ, num, fixed, fixed-IsOrdered}
use liquidity_bot.Models.{Symbol, Time}
use liquidity_bot.Models.Samples.{vector, signal, risk_config}
use liquidity_bot.Risk.{approved, size, check_size, gross_exposure, approve, on_trade_closed}
use liquidity_bot.Risk.Gates.{Permits, approve-iff-Permits}
use liquidity_bot.Risk.Sizing.{size_bounds}
use liquidity_bot.Risk.Streaks.{close_all, losses-pause}
use liquidity_bot.Risk.Samples.{manager}

abbrev losses : List (Symbol × ℤ × Time)
losses = (1, neg (num 20 1), 0) ∷ (2, neg (num 30 1), 5) ∷ []

-- 50 of risk over half a dollar to the stop
size_100 : size risk_config signal ≡ num 100 1
unfolding size
size_100 = refl

passes : approve signal vector [] 1_000_000 manager ≡ (true, approved)
unfolding approve check_size size gross_exposure
passes = refl

approve-iff-Permits_example :
    ((approve signal vector [] 1_000_000 manager).0 ≡ true
      → Permits manager signal vector [] 1_000_000)
    × (Permits manager signal vector [] 1_000_000
        → approve signal vector [] 1_000_000 manager ≡ (true, approved))
approve-iff-Permits_example = approve-iff-Permits signal vector [] 1_000_000 manager

size_bounds_example :
    (lit 0 ≼ size risk_config signal)
    × (size risk_config signal ≼ num 500 1)
    × (le (abs (num 10 1 ⊖ num 95 10)) (lit 0) ≡ false
        → (size risk_config signal ≼ num 50 1 ⊘ abs (num 10 1 ⊖ num 95 10))
          × (size risk_config signal ≼ num 5000 1 ⊘ num 10 1))
size_bounds_example = size_bounds fixed-IsOrdered risk_config signal refl refl refl refl

losses-pause_example :
    let r = on_trade_closed 3 (neg (num 10 1)) 9 (close_all losses manager) in
    (r.consecutive_losses ≡ 0)
    × (r.strategy_cooldown_until ≡ some (9 + 900 * 1_000_000))
    × ((approve signal vector [] 1_000_000 r).0 ≡ false)
losses-pause_example =
    losses-pause losses 3 (neg (num 10 1)) 9 manager signal vector [] 1_000_000 (refl, (refl, tt))
      refl refl (omega arith)
