-- ===== src/Fsm/Graph.antt =====
-- strategy/fsm.py: which states follow one another.
use liquidity_bot.Prelude.{
  ℕ, ◌≡◌, ◌≢◌, refl, ap, subst, ◌⊎◌, inl, Bool, true, false, List, [], ◌∷◌, arith,
}
use liquidity_bot.Float.{Float}
use liquidity_bot.Models.{Time, GovernorAction}
use liquidity_bot.Models.Features.{FeatureVector}
use liquidity_bot.Config.{StrategyConfig}
use liquidity_bot.Fsm.{
  SState, idle, impulse, confirm_wait, exhaustion, failed_retest, entry, manage, exit, cooldown,
  FsmConfig, Track, fresh, go, on_position_closed, on_entry_fill, on_entry_failed, cool, arm,
  track_extremes, in_impulse, in_confirm_wait, in_exhaustion, in_failed_retest, advance, armed_step,
  step_at, step,
}

-- what a track of a symbol is told: an evaluation tick, and the life of its order and position
pub data Event (F : Type 0) : Type 0 where
  evaluates : ℕ → FeatureVector F → GovernorAction → Event F
  fills fails closes : Time → Event F

-- the moves of `step`, from each state
abbrev pub edge : SState → SState → Bool
edge idle impulse = true
edge impulse idle = true
edge impulse confirm_wait = true
edge confirm_wait idle = true
edge confirm_wait exhaustion = true
edge exhaustion idle = true
edge exhaustion failed_retest = true
edge failed_retest idle = true
edge failed_retest confirm_wait = true
edge failed_retest entry = true
edge cooldown idle = true
edge _ _ = false

module _ {F : Type 0} ⦃f : Float F⦄ (c : FsmConfig F) (strat : StrategyConfig F) where
  unfoldable pub handle : Event F → Track F → Track F
  handle (evaluates trace v action) tr = (step c strat trace v action tr).0
  handle (fills ts) tr = on_entry_fill c ts tr
  handle (fails ts) tr = on_entry_failed c ts tr
  handle (closes ts) tr = on_position_closed c ts tr

  unfoldable pub run : List (Event F) → Track F → Track F
  unfolding handle
  run [] tr = tr
  run (e ∷ es) tr = run es (handle e tr)

  -- `step` stays in a state or follows the diagram.
  abbrev Moves : SState → SState → Type 0
  Moves s t = (t ≡ s) ⊎ (edge s t ≡ true)

  advance-Moves :
      (s : SState) (trace : ℕ) (v : FeatureVector F) (tr : Track F)
      → tr.state ≡ s
      → Moves s (advance c strat s trace v tr).0.state
  unfolding advance in_impulse in_confirm_wait in_exhaustion in_failed_retest go
  advance-Moves impulse trace v tr e = ground arith
  advance-Moves confirm_wait trace v tr e = ground arith
  advance-Moves exhaustion trace v tr e = ground arith
  advance-Moves failed_retest trace v tr e = ground arith
  advance-Moves _ trace v tr e = inl e

  abbrev is_armed : SState → Bool
  is_armed impulse = true
  is_armed confirm_wait = true
  is_armed exhaustion = true
  is_armed failed_retest = true
  is_armed _ = false

  armed_step-Moves :
      (trace : ℕ) (v : FeatureVector F) (action : GovernorAction) (tr : Track F)
      → is_armed tr.state ≡ true
      → Moves tr.state (armed_step c strat trace v action tr).0.state
  unfolding armed_step track_extremes go
  armed_step-Moves trace v action tr h =
      ground (arith, advance-Moves tr.state trace v (track_extremes c v tr) refl)

  step_at-Moves :
      (s : SState) (trace : ℕ) (v : FeatureVector F) (action : GovernorAction) (tr : Track F)
      → tr.state ≡ s
      → Moves s (step_at c strat s trace v action tr).0.state
  unfolding step_at cool arm go
  step_at-Moves cooldown trace v action tr e = ground arith
  step_at-Moves entry trace v action tr e = inl e
  step_at-Moves manage trace v action tr e = inl e
  step_at-Moves exit trace v action tr e = inl e
  step_at-Moves idle trace v action tr e = ground arith
  step_at-Moves _ trace v action tr e =
      subst (λ s. Moves s (armed_step c strat trace v action tr).0.state) e
        (armed_step-Moves trace v action tr (ap is_armed e))

  -- Every evaluation tick leaves the state as it is or takes an arrow of the diagram.
  pub step-Moves :
      (trace : ℕ) (v : FeatureVector F) (action : GovernorAction) (tr : Track F)
      → (let t = (step c strat trace v action tr).0.state in
          (t ≡ tr.state) ⊎ (edge tr.state t ≡ true))
  unfolding step
  step-Moves trace v action tr = step_at-Moves tr.state trace v action tr refl

  handle-exit : (e : Event F) (tr : Track F) → tr.state ≢ exit → (handle e tr).state ≢ exit
  unfolding handle on_entry_fill on_entry_failed on_position_closed go
  handle-exit (evaluates trace v action) tr h q = ground (arith, step-Moves trace v action tr)
  handle-exit (fills ts) tr h q = ground arith
  handle-exit (fails ts) tr h q = ground arith
  handle-exit (closes ts) tr h q = ground arith

  run-exit : (es : List (Event F)) (tr : Track F) → tr.state ≢ exit → (run es tr).state ≢ exit
  unfolding run
  run-exit [] tr h = h
  run-exit (e ∷ es) tr h = run-exit es (handle e tr) (handle-exit e tr h)

  -- No events at all bring a new track to the state EXIT of the diagram.
  pub exit_unreachable : (es : List (Event F)) → (run es fresh).state ≢ exit
  unfolding fresh
  exit_unreachable es = run-exit es fresh (λ e. cc)
