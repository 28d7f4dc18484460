-- ===== src/Fsm/Retests.antt =====
-- strategy/fsm.py: what the retest of a burst's extreme decides.
use liquidity_bot.Prelude.{
  ℕ, ◌≡◌, refl, ap, ◌∙◌, true, false, ◌&&◌, some, List, [], ◌∷◌, arith, if_cases,
}
use liquidity_bot.Float.{Float, IsOrdered, ◌⊖◌, lit, le, lt}
use liquidity_bot.Float.Order
use liquidity_bot.Models.{GovernorAction}
use liquidity_bot.Models.Features.{FeatureVector}
use liquidity_bot.Config.{StrategyConfig}
use liquidity_bot.Fsm.{
  SState, idle, impulse, confirm_wait, exhaustion, failed_retest, entry, manage, exit, cooldown,
  FsmConfig, Direction, up, down, flat, times, Track, is_no_trade, go, dwell_over,
  on_position_closed, on_entry_fill, on_entry_failed, cool, arm, track_extremes, in_impulse,
  in_confirm_wait, in_exhaustion, in_failed_retest, entry_signal, advance, armed_step, step_at,
  step,
}
use liquidity_bot.Fsm.Graph.{Event, evaluates, fills, fails, closes, handle, run}

module _ {F : Type 0} ⦃f : Float F⦄ (c : FsmConfig F) (strat : StrategyConfig F) where
  advance-retest_seen :
      (s : SState) (trace : ℕ) (v : FeatureVector F) (tr : Track F)
      → tr.retest_seen ≡ true
      → (advance c strat s trace v tr).0.retest_seen ≡ true
  unfolding advance in_impulse in_confirm_wait in_exhaustion in_failed_retest go
  advance-retest_seen impulse trace v tr h = ground arith
  advance-retest_seen confirm_wait trace v tr h = ground arith
  advance-retest_seen exhaustion trace v tr h = ground arith
  advance-retest_seen failed_retest trace v tr h = ground arith
  advance-retest_seen _ trace v tr h = h

  step_at-retest_seen :
      (s : SState) (trace : ℕ) (v : FeatureVector F) (action : GovernorAction) (tr : Track F)
      → tr.retest_seen ≡ true
      → (step_at c strat s trace v action tr).0.retest_seen ≡ true
  unfolding step_at cool arm armed_step track_extremes go
  step_at-retest_seen cooldown trace v action tr h = ground arith
  step_at-retest_seen entry trace v action tr h = h
  step_at-retest_seen manage trace v action tr h = h
  step_at-retest_seen exit trace v action tr h = h
  step_at-retest_seen idle trace v action tr h = ground arith
  step_at-retest_seen _ trace v action tr h =
      ground (arith, advance-retest_seen tr.state trace v (track_extremes c v tr) h)

  handle-retest_seen :
      (e : Event F) (tr : Track F)
      → tr.retest_seen ≡ true
      → (handle c strat e tr).retest_seen ≡ true
  unfolding handle step on_entry_fill on_entry_failed on_position_closed go
  handle-retest_seen (evaluates trace v action) tr h =
      step_at-retest_seen tr.state trace v action tr h
  handle-retest_seen (fills ts) tr h = ground arith
  handle-retest_seen (fails ts) tr h = ground arith
  handle-retest_seen (closes ts) tr h = ground arith

  -- Once a retest has been seen, the flag stays set through every later event: the end of the
  -- position, the cooldown and the start of the next burst do not clear it.
  pub run-retest_seen :
      (es : List (Event F)) (tr : Track F)
      → tr.retest_seen ≡ true
      → (run c strat es tr).retest_seen ≡ true
  unfolding run
  run-retest_seen [] tr h = h
  run-retest_seen (e ∷ es) tr h =
      run-retest_seen es (handle c strat e tr) (handle-retest_seen e tr h)

  module _ (laws : IsOrdered F) where
    open laws use {sub-self, mul-zero, le_refl}

    times-no_move : (d : Direction) (x : F) → lt (lit 0) (times d (x ⊖ x)) ≡ false
    unfolding times
    times-no_move flat x = rw (sub-self, mul-zero) (Order.not_lt_of_le laws _ _ (le_refl (lit 0)))
    times-no_move up x = rw (sub-self, mul-zero) (Order.not_lt_of_le laws _ _ (le_refl (lit 0)))
    times-no_move down x = rw (sub-self, mul-zero) (Order.not_lt_of_le laws _ _ (le_refl (lit 0)))

    -- After the extremes have been tracked, the price is at no new extreme.
    no_new_extreme :
        (v : FeatureVector F) (tr : Track F)
        → let seen = track_extremes c v tr in
          lt (lit 0) (times seen.direction (v.mid ⊖ seen.extreme_mid)) ≡ false
    unfolding track_extremes
    no_new_extreme v tr =
        if_cases (λ x. lt (lit 0) (times tr.direction (v.mid ⊖ x)) ≡ false)
          (lt (lit 0) (times tr.direction (v.mid ⊖ tr.extreme_mid))) _ _
          (λ _. times-no_move tr.direction v.mid) (λ within. within)

    failed_retest-step :
        (trace : ℕ) (v : FeatureVector F) (action : GovernorAction) (tr : Track F)
        → tr.state ≡ failed_retest
        → is_no_trade action ≡ false
        → (le (lit 0) v.peer_confirm_latency_s
            && le v.peer_confirm_latency_s c.max_peer_confirm_latency_s)
          ≡ false
        → step c strat trace v action tr ≡ in_failed_retest c strat trace v (track_extremes c v tr)
    unfolding step step_at armed_step advance
    failed_retest-step trace v action tr e a p =
        let reached : armed_step c strat trace v action tr
            ≡ advance c strat tr.state trace v (track_extremes c v tr) =
          rw (a, p) in
        ap (λ s. step_at c strat s trace v action tr) e
        ∙ reached
        ∙ ap (λ s. advance c strat s trace v (track_extremes c v tr)) e

    in_failed_retest-enters :
        (trace : ℕ) (v : FeatureVector F) (seen : Track F)
        → dwell_over v.ts c.retest_timeout seen ≡ false
        → lt (lit 0) (times seen.direction (v.mid ⊖ seen.extreme_mid)) ≡ false
        → ((in_failed_retest c strat trace v seen).0.state ≡ entry)
          × ((in_failed_retest c strat trace v seen).1 ≡ some (entry_signal c strat trace v seen))
    unfolding in_failed_retest go
    in_failed_retest-enters trace v seen h k = rw (h, k) (refl, refl)

    track_extremes-dwell :
        (v : FeatureVector F) (tr : Track F) (d : ℕ)
        → dwell_over v.ts d (track_extremes c v tr) ≡ dwell_over v.ts d tr
    unfolding track_extremes
    track_extremes-dwell v tr d = refl

    -- In FAILED_RETEST, within the window, with no NO_TRADE and no fast confirmation by the peers, a
    -- tick always emits the entry signal: also where the price has gone beyond the burst's extreme,
    -- since the extreme is tracked before the test that would arm the machine again.
    pub failed_retest-enters :
        (trace : ℕ) (v : FeatureVector F) (action : GovernorAction) (tr : Track F)
        → tr.state ≡ failed_retest
        → is_no_trade action ≡ false
        → (le (lit 0) v.peer_confirm_latency_s
            && le v.peer_confirm_latency_s c.max_peer_confirm_latency_s)
          ≡ false
        → dwell_over v.ts c.retest_timeout tr ≡ false
        → ((step c strat trace v action tr).0.state ≡ entry)
          × ((step c strat trace v action tr).1
              ≡ some (entry_signal c strat trace v (track_extremes c v tr)))
    failed_retest-enters trace v action tr e a p d =
        rw (failed_retest-step trace v action tr e a p) (
          in_failed_retest-enters trace v (track_extremes c v tr)
            (track_extremes-dwell v tr c.retest_timeout ∙ d) (no_new_extreme v tr))
