-- ===== src/Adaptive/Tests.antt =====
-- The retries of a passive plan, and the properties at them.
use liquidity_bot.Prelude.{◌≤◌, ◌≡◌, refl, some, List, [], ◌∷◌, length}
use liquidity_bot.Float.{max}
use liquidity_bot.Float.Fixed.{ℤ, num, fixed}
use liquidity_bot.Models.{Quote, buy}
use liquidity_bot.Models.Samples.{quote}
use liquidity_bot.Adaptive.{ExecPlan, passive, day, next_retry, retry, slip_bps}
use liquidity_bot.Adaptive.Ladder.{retries, retries-length, Kept, retries-Kept}

abbrev plan : ExecPlan ℤ
plan = record {
  style = passive;
  limit_price = some (num 939 100);
  tif = day;
  ttl_ms = 4000;
  expected_fill_prob = num 1 2;
  max_chase_bps = num 40 1;
}

abbrev quotes : List (Quote ℤ)
quotes = quote ∷ quote ∷ quote ∷ []

-- of three quotes, the first two are used
two : length (retries buy (num 94 10) (num 1 100) quotes plan) ≡ 2
unfolding retries next_retry retry slip_bps max
two = refl

retries-length_example : length (retries buy (num 94 10) (num 1 100) quotes plan) ≤ 2
retries-length_example = retries-length buy (num 94 10) (num 1 100) quotes plan

retries-Kept_example :
    Kept buy (num 94 10) (num 1 100) (num 40 1) (retries buy (num 94 10) (num 1 100) quotes plan)
retries-Kept_example = retries-Kept buy (num 94 10) (num 1 100) quotes plan
