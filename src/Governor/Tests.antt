-- ===== src/Governor/Tests.antt =====
-- The properties at a governor of a quiet market.
use liquidity_bot.Prelude.{◌≡◌, ◌≢◌, ◌∙◌, sym, refl}
use liquidity_bot.Float.{abs}
use liquidity_bot.Float.Fixed.{fixed}
use liquidity_bot.Models.{reversal, no_trade}
use liquidity_bot.Models.Samples.{vector}
use liquidity_bot.Health.{is_healthy, verdict}
use liquidity_bot.Governor.{decide, decide_healthy, choose, reversal_reasons, move_dir}
use liquidity_bot.Governor.Samples.{governor}
use liquidity_bot.Governor.Verdicts.{Tradable, decide-Tradable}

-- the reversal of a vector in the middle of the session, and what it computes with
reverses : (decide vector 1_000_000 governor).0 ≡ reversal
unfolding decide decide_healthy choose reversal_reasons move_dir is_healthy verdict abs
reverses = refl

differs : reversal ≢ no_trade
differs e = cc

decide-Tradable_example : Tradable vector 1_000_000 governor
decide-Tradable_example =
    decide-Tradable vector 1_000_000 governor (λ e. differs (sym reverses ∙ e))
