-- ===== src/Fsm/Signals.antt =====
-- strategy/fsm.py: when a signal is emitted, and how often.
use liquidity_bot.Prelude.{
  ℕ, suc, ◌+◌, ◌≤◌, ◌<◌, ◌≡◌, ◌≢◌, refl, ap, false, Option, none, some, List, [], ◌∷◌, arith, All,
  leb,
}
use liquidity_bot.Float.{Float}
use liquidity_bot.Models.{Time, Side, buy, sell, GovernorAction, no_trade, Signal}
use liquidity_bot.Models.Features.{FeatureVector}
use liquidity_bot.Config.{StrategyConfig}
use liquidity_bot.Fsm.{
  SState, idle, failed_retest, entry, manage, exit, cooldown, FsmConfig, Direction, up, Track, go,
  dwell_over, on_position_closed, cool, track_extremes, in_failed_retest, entry_signal, advance,
  armed_step, step_at, step,
}

-- the direction in which a burst is faded
abbrev pub faded : Direction → Side
faded up = sell
faded _ = buy

module _ {F : Type 0} ⦃f : Float F⦄ (c : FsmConfig F) (strat : StrategyConfig F) where
  abbrev pub Tick : Type 0
  Tick = ℕ × FeatureVector F × GovernorAction

  -- the track after some ticks, and how many signals they emitted
  abbrev tally : Track F × Option (Signal F) → (Track F → Track F × ℕ) → Track F × ℕ
  tally (tr, none) rest = rest tr
  tally (tr, some _) rest = let (last, n) = rest tr in (last, suc n)

  pub tick_all : List Tick → Track F → Track F × ℕ
  tick_all [] tr = (tr, 0)
  tick_all ((trace, v, action) ∷ ts) tr = tally (step c strat trace v action tr) (tick_all ts)

  tick_all-cons :
      (trace : ℕ) (v : FeatureVector F) (action : GovernorAction) (ts : List Tick) (tr : Track F)
      → tick_all ((trace, v, action) ∷ ts) tr ≡ tally (step c strat trace v action tr) (tick_all ts)
  unfolding tick_all
  tick_all-cons trace v action ts tr = refl

  advance-some :
      (s : SState) (trace : ℕ) (v : FeatureVector F) (tr : Track F) (sig : Signal F)
      → (advance c strat s trace v tr).1 ≡ some sig
      → (s ≡ failed_retest)
        × ((advance c strat s trace v tr).0.state ≡ entry)
        × (sig ≡ entry_signal c strat trace v tr)
        × (dwell_over v.ts c.retest_timeout tr ≡ false)
  unfolding advance in_failed_retest go
  advance-some failed_retest trace v tr sig h = ground arith
  advance-some _ trace v tr sig h = cc

  entry_signal-side :
      (trace : ℕ) (v : FeatureVector F) (tr : Track F)
      → ((entry_signal c strat trace v tr).side ≡ faded tr.direction)
        × ((entry_signal c strat trace v tr).reference_price ≡ v.mid)
  unfolding entry_signal
  entry_signal-side trace v tr = ground arith

  armed_step-some :
      (trace : ℕ) (v : FeatureVector F) (action : GovernorAction) (tr : Track F) (sig : Signal F)
      → (armed_step c strat trace v action tr).1 ≡ some sig
      → (tr.state ≡ failed_retest)
        × (action ≢ no_trade)
        × ((armed_step c strat trace v action tr).0.state ≡ entry)
        × (sig.side ≡ faded tr.direction)
        × (sig.reference_price ≡ v.mid)
        × (dwell_over v.ts c.retest_timeout tr ≡ false)
  unfolding armed_step track_extremes
  armed_step-some trace v action tr sig h =
      let seen = track_extremes c v tr in
      ground (arith, advance-some tr.state trace v seen sig, entry_signal-side trace v seen)

  step_at-some :
      (s : SState) (trace : ℕ) (v : FeatureVector F) (action : GovernorAction) (tr : Track F)
      (sig : Signal F)
      → (step_at c strat s trace v action tr).1 ≡ some sig
      → step_at c strat s trace v action tr ≡ armed_step c strat trace v action tr
  unfolding step_at
  step_at-some cooldown trace v action tr sig h = cc
  step_at-some entry trace v action tr sig h = cc
  step_at-some manage trace v action tr sig h = cc
  step_at-some exit trace v action tr sig h = cc
  step_at-some idle trace v action tr sig h = cc
  step_at-some _ trace v action tr sig h = refl

  -- A signal is emitted only in FAILED_RETEST, within the retest window and when the governor does
  -- not say NO_TRADE. It fades the burst at the current mid price, and the state becomes ENTRY.
  pub step-some :
      (trace : ℕ) (v : FeatureVector F) (action : GovernorAction) (tr : Track F) (sig : Signal F)
      → (step c strat trace v action tr).1 ≡ some sig
      → (tr.state ≡ failed_retest)
        × (action ≢ no_trade)
        × ((step c strat trace v action tr).0.state ≡ entry)
        × (sig.side ≡ faded tr.direction)
        × (sig.reference_price ≡ v.mid)
        × (dwell_over v.ts c.retest_timeout tr ≡ false)
  unfolding step
  step-some trace v action tr sig h =
      let same = step_at-some tr.state trace v action tr sig h in
      rw same (armed_step-some trace v action tr sig (rw same at h))

  step-entry :
      (trace : ℕ) (v : FeatureVector F) (action : GovernorAction) (tr : Track F)
      → tr.state ≡ entry
      → step c strat trace v action tr ≡ (tr, none)
  unfolding step step_at
  step-entry trace v action tr e = ap (λ s. step_at c strat s trace v action tr) e

  ticks-entry : (ts : List Tick) (tr : Track F) → tr.state ≡ entry → (tick_all ts tr).1 ≡ 0
  unfolding tick_all
  ticks-entry [] tr e = refl
  ticks-entry ((trace, v, action) ∷ ts) tr e =
      rw (step-entry trace v action tr e) (ticks-entry ts tr e)

  tally-le-one :
      (r : Track F × Option (Signal F)) (ts : List Tick)
      → ((sig : Signal F) → r.1 ≡ some sig → r.0.state ≡ entry)
      → (tick_all ts r.0).1 ≤ 1
      → (tally r (tick_all ts)).1 ≤ 1
  tally-le-one (tr, none) ts h k = k
  tally-le-one (tr, some sig) ts h k = rw (ticks-entry ts tr (h sig refl)) (omega arith)

  -- Ticks alone emit at most one signal: another needs a report that the position was closed or the
  -- entry failed.
  pub tick_all-le-one : (ts : List Tick) (tr : Track F) → (tick_all ts tr).1 ≤ 1
  unfolding tick_all
  tick_all-le-one [] tr = omega arith
  tick_all-le-one ((trace, v, action) ∷ ts) tr =
      let r = step c strat trace v action tr in
      tally-le-one r ts (λ sig e. (step-some trace v action tr sig e).2) (tick_all-le-one ts r.0)

  step-cooldown :
      (trace : ℕ) (v : FeatureVector F) (action : GovernorAction) (closed : Time) (tr : Track F)
      → v.ts < closed + c.cooldown
      → step c strat trace v action (on_position_closed c closed tr)
        ≡ (on_position_closed c closed tr, none)
  unfolding step step_at on_position_closed cool go
  step-cooldown trace v action closed tr early =
      let waits : leb (closed + c.cooldown) v.ts ≡ false = ground arith in rw waits

  -- After a position has been closed, no tick before the end of the cooldown emits a signal or
  -- changes the track.
  pub ticks_cooldown :
      (ts : List Tick) (closed : Time) (tr : Track F)
      → All (λ t. t.1.ts < closed + c.cooldown) ts
      → tick_all ts (on_position_closed c closed tr) ≡ (on_position_closed c closed tr, 0)
  unfolding tick_all
  ticks_cooldown [] closed tr h = refl
  ticks_cooldown ((trace, v, action) ∷ ts) closed tr (early, h) =
      rw (step-cooldown trace v action closed tr early) (ticks_cooldown ts closed tr h)
