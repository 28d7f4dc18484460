-- ===== src/Portfolio/Tests.antt =====
-- A day of the portfolio's risk, and the properties at it.
use liquidity_bot.Prelude.{◌≡◌, refl, false, List, [], ◌∷◌}
use liquidity_bot.Float.{◌⊖◌, ◌⊗◌, ratio, ◌≼◌, lit, neg, abs, max}
use liquidity_bot.Float.Fixed.{ℤ, num, fixed, fixed-IsOrdered}
use liquidity_bot.Models.Samples.{vector, signal}
use liquidity_bot.Portfolio.{
  approve, sector_verdict, cluster_full, count_open, size_multiplier, on_trade_closed, restore,
}
use liquidity_bot.Portfolio.Governor.{close_all, drawdown-refuses, Permits, approve-Permits}
use liquidity_bot.Portfolio.Sizing.{half, targeted, size_multiplier-bounds}
use liquidity_bot.Portfolio.Restart.{started, report_all, restore-recovers, restore-peak-le}
use liquidity_bot.Portfolio.Samples.{config, day}

abbrev results : List ℤ
results = num 100 1 ∷ neg (num 250 1) ∷ num 40 1 ∷ []

-- two positions of the signal's cluster are open
second_blocks : (approve signal (2 ∷ 3 ∷ []) (num 0 1) (num 0 1) (num 0 1) day).0 ≡ false
unfolding approve sector_verdict cluster_full count_open abs
second_blocks = refl

drawdown-refuses_example :
    (approve signal []
      (num 0 1)
      (num 0 1)
      (num 0 1)
      (close_all 6 results (on_trade_closed 6 (neg (num 250 1)) day))).0
    ≡ false
unfolding max
drawdown-refuses_example =
    drawdown-refuses 6 (neg (num 250 1)) results day signal [] (num 0 1) (num 0 1) (num 0 1) refl

approve-Permits_example : Permits signal (2 ∷ []) (num 10 1) (num 5 1) (num 0 1) day
unfolding approve sector_verdict cluster_full count_open abs
approve-Permits_example = approve-Permits signal (2 ∷ []) (num 10 1) (num 5 1) (num 0 1) day refl

-- the drawdown of 200 is over the soft level
size_multiplier-bounds_example :
    (lit 0 ≼ size_multiplier vector day)
    × (size_multiplier vector day ≼ num 3 2)
    × (size_multiplier vector day ≼ num 1 1 ⊗ num 3 2 ⊗ ratio 5 10)
    × (size_multiplier vector day
        ≼ num 1 1 ⊗ max (num 1 4) (targeted config vector.realized_vol_bps) ⊗ ratio 5 10)
size_multiplier-bounds_example =
    size_multiplier-bounds fixed-IsOrdered vector day (ratio 5 10) refl refl refl refl refl
      (half refl)

restore-recovers_example :
    ((restore 6 (report_all 6 results (started config))).realized
      ≡ (report_all 6 results (started config)).realized)
    × ((restore 6 (report_all 6 results (started config))).halted
        ≡ (report_all 6 results (started config)).halted)
restore-recovers_example = restore-recovers 6 config results

restore-peak-le_example :
    ((restore 6 (report_all 6 results (started config))).peak_pnl
      ≼ (report_all 6 results (started config)).peak_pnl)
    × ((restore 6 (report_all 6 results (started config))).peak_pnl
          ⊖ (restore 6 (report_all 6 results (started config))).realized
        ≼ (report_all 6 results (started config)).peak_pnl
          ⊖ (report_all 6 results (started config)).realized)
restore-peak-le_example = restore-peak-le fixed-IsOrdered 6 config results
