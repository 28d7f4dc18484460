-- ===== src/Fsm/Tests.antt =====
-- Ticks of one symbol's signal state machine, and the properties at them.
use liquidity_bot.Prelude.{
  ℕ, arith, ◌≤◌, ◌≡◌, ◌≢◌, refl, ◌⊎◌, true, false, Option, none, some, List, [], ◌∷◌,
}
use liquidity_bot.Float.Fixed.{ℤ, num, fixed, fixed-IsOrdered}
use liquidity_bot.Models.{GovernorAction, reversal, no_trade, sell, Signal}
use liquidity_bot.Models.Features.{FeatureVector}
use liquidity_bot.Models.Samples.{vector, strategy}
use liquidity_bot.Fsm.{
  Track, entry, failed_retest, up, go, times, track_extremes, entry_signal, in_failed_retest,
  advance, armed_step, step_at, step, on_position_closed, dwell_over,
}
use liquidity_bot.Fsm.Signals.{faded, tick_all, step-some, tick_all-le-one, ticks_cooldown}
use liquidity_bot.Fsm.Graph.{Event, evaluates, fills, closes, run, edge, step-Moves}
use liquidity_bot.Fsm.Retests.{run-retest_seen, failed_retest-enters}
use liquidity_bot.Fsm.Samples.{config}

-- a burst up to 9.9 whose retest has failed; the next tick's price, 10, is beyond it
abbrev ready : Track ℤ
ready = record {
  state = failed_retest;
  direction = up;
  entered_at = some 500_000;
  impulse_start = some 0;
  extreme_mid = num 99 10;
  peak_velocity = num 2 1;
  peak_z = num 5 1;
  retest_seen = true;
  cooldown_until = none;
  history = [];
}

abbrev ticks : List (ℕ × FeatureVector ℤ × GovernorAction)
ticks = (3, vector, reversal) ∷ (4, vector, reversal) ∷ []

abbrev life : List (Event ℤ)
life =
    evaluates 3 vector reversal
    ∷ fills 2_000_000
    ∷ closes 3_000_000
    ∷ evaluates 4 (record vector { ts = 70_000_000 }) reversal
    ∷ evaluates 5 (record vector { ts = 71_000_000 }) reversal
    ∷ []

-- opened with all that a tick computes with
next : Track ℤ × Option (Signal ℤ)
unfolding step step_at armed_step advance in_failed_retest track_extremes times go entry_signal
next = step config strategy 3 vector reversal ready

enters : next.0.state ≡ entry
unfolding next
enters = refl

step-some_example :
    (ready.state ≡ failed_retest)
    × (reversal ≢ no_trade)
    × ((step config strategy 3 vector reversal ready).0.state ≡ entry)
    × (sell ≡ faded up)
    × (vector.mid ≡ vector.mid)
    × (dwell_over vector.ts config.retest_timeout ready ≡ false)
unfolding next
step-some_example =
    step-some config strategy 3 vector reversal ready
      (entry_signal config strategy 3 vector (track_extremes config vector ready)) refl

tick_all-le-one_example : (tick_all config strategy ticks ready).1 ≤ 1
tick_all-le-one_example = tick_all-le-one config strategy ticks ready

ticks_cooldown_example :
    tick_all config strategy ticks (on_position_closed config 900_000 ready)
    ≡ (on_position_closed config 900_000 ready, 0)
ticks_cooldown_example =
    ticks_cooldown config strategy ticks 900_000 ready (omega arith, (omega arith, tt))

step-Moves_example :
    ((step config strategy 3 vector reversal ready).0.state ≡ failed_retest)
    ⊎ (edge failed_retest (step config strategy 3 vector reversal ready).0.state ≡ true)
step-Moves_example = step-Moves config strategy 3 vector reversal ready

run-retest_seen_example : (run config strategy life ready).retest_seen ≡ true
run-retest_seen_example = run-retest_seen config strategy life ready refl

failed_retest-enters_example :
    ((step config strategy 3 vector reversal ready).0.state ≡ entry)
    × ((step config strategy 3 vector reversal ready).1
        ≡ some (entry_signal config strategy 3 vector (track_extremes config vector ready)))
failed_retest-enters_example =
    failed_retest-enters config strategy fixed-IsOrdered 3 vector reversal ready refl refl refl refl
