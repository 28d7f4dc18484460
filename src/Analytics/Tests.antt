-- ===== src/Analytics/Tests.antt =====
-- Three mids of one symbol, and the search after the first.
use liquidity_bot.Prelude.{◌≡◌, refl, arith, some, [], ◌∷◌}
use liquidity_bot.Float.Fixed.{ℤ, num}
use liquidity_bot.Analytics.{ExecutionAnalytics, time_at, entry_at, bisect_right, mid_after}
use liquidity_bot.Analytics.Search.{IsSorted, first_or_last, mid_after-first_or_last}

abbrev analytics : ExecutionAnalytics ℤ
analytics = record {
  records = [];
  mids = (1, (10, num 5 1) ∷ (20, num 6 1) ∷ (40, num 7 1) ∷ []) ∷ [];
}

finds_6 : mid_after 1 10 5 analytics ≡ some (num 6 1)
unfolding mid_after bisect_right time_at entry_at
finds_6 = refl

in_order : IsSorted 3 (time_at ((10, num 5 1) ∷ (20, num 6 1) ∷ (40, num 7 1) ∷ []))
unfolding time_at
in_order i j h k = ground arith

mid_after-first_or_last_example :
    mid_after 1 10 5 analytics
    ≡ first_or_last 15 ((10, num 5 1) ∷ (20, num 6 1) ∷ (40, num 7 1) ∷ [])
mid_after-first_or_last_example = mid_after-first_or_last 1 10 5 analytics in_order
