-- ===== src/Scoring/Tests.antt =====
-- The signal of a vector, and the properties at it.
use liquidity_bot.Prelude.{◌≡◌, refl, true, false}
use liquidity_bot.Float.{◌≼◌}
use liquidity_bot.Float.Fixed.{fixed, fixed-IsOrdered}
use liquidity_bot.Models.{reversal, is_buy}
use liquidity_bot.Models.Samples.{vector, strategy}
use liquidity_bot.Scoring.{entry}
use liquidity_bot.Scoring.Brackets.{entry-Brackets}

entry-Brackets_example :
    (is_buy (entry strategy 3 reversal vector).side ≡ true
      → ((entry strategy 3 reversal vector).stop_price
          ≼ (entry strategy 3 reversal vector).reference_price)
        × ((entry strategy 3 reversal vector).reference_price
            ≼ (entry strategy 3 reversal vector).target_price))
    × (is_buy (entry strategy 3 reversal vector).side ≡ false
        → ((entry strategy 3 reversal vector).target_price
            ≼ (entry strategy 3 reversal vector).reference_price)
          × ((entry strategy 3 reversal vector).reference_price
              ≼ (entry strategy 3 reversal vector).stop_price))
entry-Brackets_example = entry-Brackets fixed-IsOrdered strategy 3 reversal vector refl refl refl
