-- ===== src/Fsm.antt =====
-- strategy/fsm.py: the signal state machine of one symbol, and the tracks of all symbols. Durations
-- are whole microseconds; `entered_at` is compared by sums, since `-` stops at zero. The random trace
-- id of a signal is an argument.
pub mod Signals
pub mod Graph
pub mod Retests
pub mod Samples
mod Tests
use liquidity_bot.Prelude.{
  ℕ, zero, suc, ◌+◌, ◌/◌, ◌^◌, ◌≡◌, refl, Bool, true, false, not, ◌&&◌, ◌||◌, Option, none, some,
  List, [], ◌∷◌, ◌++◌, ltb, leb, if◌then◌else◌, Dict, get_or, insert,
}
use liquidity_bot.Float.{Float, ◌⊕◌, ◌⊖◌, ◌⊗◌, ◌⊘◌, lit, ratio, le, lt, neg, max, abs}
use liquidity_bot.Models.{Symbol, Time, Side, buy, sell, GovernorAction, reversal, no_trade, Signal}
use liquidity_bot.Models.Features.{FeatureVector}
use liquidity_bot.Config.{StrategyConfig}

pub data SState : Type 0 where
  idle impulse confirm_wait exhaustion failed_retest entry manage exit cooldown : SState

pub record FsmConfig (F : Type 0) : Type 0 where
  pub impulse_z : F
  pub impulse_min_velocity : F
  pub confirm_wait : ℕ
  pub impulse_timeout : ℕ
  pub exhaustion_timeout : ℕ
  pub retest_timeout : ℕ
  pub retest_tolerance_bps : F
  pub cooldown : ℕ
  pub max_peer_confirm_latency_s : F
  pub velocity_flip_frac : F
  pub min_replenishment_confidence : F

-- `direction`: 0, 1 or -1
pub data Direction : Type 0 where
  flat up down : Direction

pub data Reason : Type 0 where
  position_closed entry_filled entry_unfilled cooldown_done impulse_seen governor_no_trade : Reason
  peers_confirmed_fast impulse_timed_out impulse_faded armed exhausted confirm_timed_out : Reason
  exhaustion_timed_out retest_failed retest_window_expired new_extreme_rearm entry_emitted : Reason

pub record Track (F : Type 0) : Type 0 where
  pub state : SState
  pub direction : Direction
  pub entered_at : Option Time
  pub impulse_start : Option Time
  pub extreme_mid : F
  pub peak_velocity : F
  pub peak_z : F
  pub retest_seen : Bool
  pub cooldown_until : Option Time
  pub history : List (Time × SState × SState × Reason)

abbrev pub is_no_trade : GovernorAction → Bool
is_no_trade no_trade = true
is_no_trade _ = false

abbrev pub is_entry : SState → Bool
is_entry entry = true
is_entry _ = false

module _ {F : Type 0} ⦃f : Float F⦄ where
  -- `_Track()`
  unfoldable pub fresh : Track F
  fresh = record {
    state = idle;
    direction = flat;
    entered_at = none;
    impulse_start = none;
    extreme_mid = lit 0;
    peak_velocity = lit 0;
    peak_z = lit 0;
    retest_seen = false;
    cooldown_until = none;
    history = [];
  }

  -- `d * x`
  unfoldable pub times : Direction → F → F
  times flat x = lit 0 ⊗ x
  times up x = lit 1 ⊗ x
  times down x = neg (lit 1) ⊗ x

  -- `_go`
  unfoldable pub go : SState → Time → Reason → Track F → Track F
  go to ts why tr = record tr {
    state = to;
    entered_at = some ts;
    history = tr.history ++ ((ts, tr.state, to, why) ∷ []);
  }

  -- `dwell > d` and `dwell < d`
  abbrev pub dwell_over : Time → ℕ → Track F → Bool
  dwell_over ts d tr = elim tr.entered_at [ none ↦ ltb d 0 | some e ↦ ltb (e + d) ts ]

  abbrev pub dwell_under : Time → ℕ → Track F → Bool
  dwell_under ts d tr = elim tr.entered_at [ none ↦ ltb 0 d | some e ↦ ltb ts (e + d) ]

  module _ (c : FsmConfig F) where
    unfoldable pub on_position_closed : Time → Track F → Track F
    unfolding go
    on_position_closed ts tr = record (go cooldown ts position_closed tr) {
      cooldown_until = some (ts + c.cooldown);
    }

    unfoldable pub on_entry_fill : Time → Track F → Track F
    unfolding go
    on_entry_fill ts tr = if is_entry tr.state then go manage ts entry_filled tr else tr

    unfoldable pub on_entry_failed : Time → Track F → Track F
    unfolding go
    on_entry_failed ts tr =
        if is_entry tr.state
        then record (go cooldown ts entry_unfilled tr) {
          cooldown_until = some (ts + c.cooldown / 2);
        }
        else tr

    -- `step` in COOLDOWN
    unfoldable pub cool : Time → Track F → Track F
    cool ts tr = elim tr.cooldown_until [
      | none ↦ tr
      | some t ↦ if leb t ts then go idle ts cooldown_done tr else tr
    ]

    -- `step` in IDLE, when the governor permits it
    unfoldable pub arm : FeatureVector F → Track F → Track F
    arm v tr =
        if le c.impulse_z (abs v.residual_z) && le c.impulse_min_velocity (abs v.residual_velocity)
        then go impulse v.ts impulse_seen (record tr {
          direction = if lt (lit 0) v.residual_z then up else down;
          impulse_start = some v.ts;
          extreme_mid = v.mid;
          peak_velocity = abs v.residual_velocity;
          peak_z = abs v.residual_z;
        })
        else tr

    -- the burst's extremes, tracked in all armed states
    unfoldable pub track_extremes : FeatureVector F → Track F → Track F
    track_extremes v tr = record tr {
      extreme_mid =
          if lt (lit 0) (times tr.direction (v.mid ⊖ tr.extreme_mid))
          then v.mid
          else tr.extreme_mid;
      peak_velocity = max tr.peak_velocity (abs v.residual_velocity);
      peak_z = max tr.peak_z (abs v.residual_z);
    }

    unfoldable pub in_impulse : FeatureVector F → Track F → Track F
    in_impulse v tr =
        if dwell_over v.ts c.impulse_timeout tr
        then go idle v.ts impulse_timed_out tr
        else if lt (abs v.residual_z) (c.impulse_z ⊗ ratio 5 10)
        then go idle v.ts impulse_faded tr
        else go confirm_wait v.ts armed tr

    unfoldable pub is_exhausted : FeatureVector F → Track F → Bool
    is_exhausted v tr =
        let d = tr.direction in
        let vel_dead =
          le (abs v.residual_velocity)
            (c.velocity_flip_frac ⊗ max tr.peak_velocity (ratio 1 (10 ^ 9))) in
        let flow_fading = lt (times d v.flow_imbalance) (ratio 35 100) in
        vel_dead
        && lt (ratio 15 100) v.impact_decay
        && (flow_fading || lt (times d v.residual_acceleration) (lit 0))

    unfoldable pub in_confirm_wait : FeatureVector F → Track F → Track F
    in_confirm_wait v tr =
        if dwell_under v.ts c.confirm_wait tr
        then tr
        else if is_exhausted v tr
        then go exhaustion v.ts exhausted tr
        else if dwell_over v.ts c.impulse_timeout tr
        then go idle v.ts confirm_timed_out tr
        else tr

    -- `dist_bps <= retest_tolerance_bps`
    unfoldable pub is_near : FeatureVector F → Track F → Bool
    is_near v tr =
        le (times tr.direction (tr.extreme_mid ⊖ v.mid) ⊘ max v.mid (ratio 1 (10 ^ 9)) ⊗ lit 10_000)
          c.retest_tolerance_bps

    -- `micro_against or repl_against`
    unfoldable pub is_against : FeatureVector F → Track F → Bool
    is_against v tr =
        lt (times tr.direction v.microprice_bps) (lit 0)
        || lt (times tr.direction v.replenishment_skew) (lit 0)
          && le c.min_replenishment_confidence v.replenishment_confidence

    unfoldable pub in_exhaustion : FeatureVector F → Track F → Track F
    in_exhaustion v tr =
        if dwell_over v.ts c.exhaustion_timeout tr
        then go idle v.ts exhaustion_timed_out tr
        else if is_near v tr
        then record tr { retest_seen = true }
        else if tr.retest_seen && is_against v tr
        then go failed_retest v.ts retest_failed tr
        else tr

    module _ (strat : StrategyConfig F) where
      unfoldable pub entry_signal : ℕ → FeatureVector F → Track F → Signal F
      entry_signal trace v tr =
          let d = tr.direction in
          let reversion = abs v.residual_return ⊗ strat.target_residual_reversion in
          record {
            symbol = v.symbol;
            ts = v.ts;
            side = side d;
            action = reversal;
            score = tr.peak_z;
            reference_price = v.mid;
            stop_price = tr.extreme_mid ⊗ (lit 1 ⊕ times d strat.stop_bps ⊘ lit 10_000);
            target_price = v.mid ⊗ (lit 1 ⊖ times d reversion);
            trace_id = trace;
          }
        where
          side : Direction → Side
          side up = sell
          side _ = buy

      unfoldable pub in_failed_retest : ℕ → FeatureVector F → Track F → Track F × Option (Signal F)
      in_failed_retest trace v tr =
          if dwell_over v.ts c.retest_timeout tr
          then (go idle v.ts retest_window_expired tr, none)
          else if lt (lit 0) (times tr.direction (v.mid ⊖ tr.extreme_mid))
          then (go confirm_wait v.ts new_extreme_rearm tr, none)
          else (go entry v.ts entry_emitted tr, some (entry_signal trace v tr))

      -- the last part of `step`, by the state of the track
      unfoldable pub advance : SState → ℕ → FeatureVector F → Track F → Track F × Option (Signal F)
      advance impulse trace v tr = (in_impulse v tr, none)
      advance confirm_wait trace v tr = (in_confirm_wait v tr, none)
      advance exhaustion trace v tr = (in_exhaustion v tr, none)
      advance failed_retest trace v tr = in_failed_retest trace v tr
      advance _ trace v tr = (tr, none)

      -- the armed states: extremes, invalidations, then the state's own rule
      unfoldable pub armed_step :
          ℕ → FeatureVector F → GovernorAction → Track F → Track F × Option (Signal F)
      armed_step trace v action tr =
          let seen = track_extremes v tr in
          if is_no_trade action
          then (go idle v.ts governor_no_trade seen, none)
          else if le (lit 0) v.peer_confirm_latency_s
              && le v.peer_confirm_latency_s c.max_peer_confirm_latency_s
          then (go idle v.ts peers_confirmed_fast seen, none)
          else advance tr.state trace v seen

      unfoldable pub step_at :
          SState → ℕ → FeatureVector F → GovernorAction → Track F → Track F × Option (Signal F)
      step_at cooldown trace v action tr = (cool v.ts tr, none)
      step_at entry trace v action tr = (tr, none)
      step_at manage trace v action tr = (tr, none)
      step_at exit trace v action tr = (tr, none)
      step_at idle trace v action tr = (if is_no_trade action then tr else arm v tr, none)
      step_at _ trace v action tr = armed_step trace v action tr

      unfoldable pub step :
          ℕ → FeatureVector F → GovernorAction → Track F → Track F × Option (Signal F)
      step trace v action tr = step_at tr.state trace v action tr

    -- `tracks.setdefault(symbol, _Track())`, and what a method makes of the track
    unfoldable pub on_track : Symbol → (Track F → Track F) → Dict (Track F) → Dict (Track F)
    on_track s g tracks = insert s (g (get_or s fresh tracks)) tracks
