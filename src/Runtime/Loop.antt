-- ===== src/Runtime/Loop.antt =====
-- runtime.py: `recover`, `on_tick`, `_evaluate`, the handlers of quotes and trades, and `shutdown`.
use liquidity_bot.Prelude.{
  ℕ, ◌+◌, ◌*◌, Bool, true, false, not, ◌&&◌, ◌||◌, Option, none, some, List, [], ◌∷◌, ◌++◌, leb,
  ltb, if◌then◌else◌, Dict, lookup, insert, get_or, is_some, contains,
}
use liquidity_bot.Float.{Float, ◌⊕◌, ◌⊗◌, lit, ratio, lt}
use liquidity_bot.Models.{Symbol, Coid, Time, Quote, Trade, Signal, Position, GovernorAction}
use liquidity_bot.Models.Features.{FeatureVector}
use liquidity_bot.Orders.{ok, err, Outcome}
use liquidity_bot.Orders.Methods
use liquidity_bot.Fsm.{fresh, step}
use liquidity_bot.Ledger.{append, halt, load_day}
use liquidity_bot.Ledger.PositionLog.{rebuild_positions}
use liquidity_bot.Ledger.OpenOrders.{rebuild_open_orders, restore_all}
use liquidity_bot.Portfolio.{restore}
use liquidity_bot.Positions.{check_exits}
use liquidity_bot.Reconciler.{BrokerReadView, reconcile}
use liquidity_bot.Health.{on_event}
use liquidity_bot.Governor.{update_context, decide}
use liquidity_bot.Session.{VenueEvent, apply_venue_events, tell_ended}
use liquidity_bot.Venue
use liquidity_bot.Runtime.{Engine, Run, View, Naming, in_core, and_then}
use liquidity_bot.Runtime.Submit.{submit_entry, submit_exit}

module _ {F : Type 0} ⦃f : Float F⦄ where
  -- `positions[pos.symbol] = pos` for each position
  unfoldable pub put_all : Dict (Position F) → Dict (Position F) → Dict (Position F)
  put_all [] held = held
  put_all ((_, pos) ∷ d) held = put_all d (insert pos.symbol pos held)

  -- `recover` up to the reconciliation
  unfoldable pub rebuild : ℕ → Engine F → Engine F
  rebuild today e =
      let c = e.core in
      let found = rebuild_positions c.pos_log in
      let day = load_day today c.risk2.ledger in
      record e {
        core = record c {
          om = restore_all (rebuild_open_orders e.journal.path) c.om;
          pm = record c.pm { positions = put_all found c.pm.positions };
          risk2 = restore today c.risk2;
          risk = record c.risk {
            positions = put_all found c.risk.positions;
            realized_pnl = day.realized_pnl;
            consecutive_losses = day.consecutive_losses;
          };
        };
      }

  -- `recover`, with what it returns
  unfoldable pub recover : ℕ → BrokerReadView F → Engine F → Bool × Engine F
  recover today broker e =
      let e' = rebuild today e in
      let result = reconcile e'.core.pm.positions broker in
      if e.live then (result.ok, e') else (true, e')

  -- the cancels of `on_tick` for the orders that `om.poll()` has returned
  unfoldable pub cancel_all : Time → List Coid → Engine F → Engine F
  cancel_all now [] e = e
  cancel_all now (k ∷ ks) e = cancel_all now ks (
      if e.live
      then record e { cancels = e.cancels ++ (k ∷ []) }
      else record e { venue = Venue.cancel now k e.venue })

  unfoldable pub polled : Time → Outcome F (List Coid) → Engine F → Run F
  polled now (ok ks, om) e =
      (ok tt, cancel_all now ks (record e { core = tell_ended now (record e.core { om = om }) }))
  polled now (err x, om) e = (err x, record e { core = tell_ended now (record e.core { om = om }) })

  -- `_apply_venue_events` on what the venue has returned
  unfoldable pub apply_events :
      Time → ℕ → Venue.PaperVenue F × List (VenueEvent F) → Engine F → Run F
  unfolding in_core
  apply_events now today (venue, evs) e =
      in_core (apply_venue_events now today evs e.core) (record e { venue = venue })

  -- a failed reconciliation: the kill switch, and a halt in the ledger
  unfoldable pub fail_closed : ℕ → Engine F → Engine F
  fail_closed today e =
      let c = e.core in
      record e {
        core = record c {
          risk = record c.risk { cfg = record c.risk.cfg { kill_switch = true } };
          risk2 = record c.risk2 { ledger = append today halt c.risk2.ledger };
        };
      }

  abbrev pub is_recon_due : Time → Engine F → Bool
  is_recon_due now e = e.live && elim e.last_recon [
    | none ↦ true
    | some t ↦ leb (t + e.s.reconcile_interval_s * 1_000_000) now
  ]

  -- the reconciliation of `on_tick`
  unfoldable pub check_broker : Time → ℕ → BrokerReadView F → Engine F → Engine F
  check_broker now today broker e =
      let e' = record e { last_recon = some now } in
      let result = reconcile e.core.pm.positions broker in
      if is_recon_due now e then if result.ok then e' else fail_closed today e' else e

  unfoldable pub on_tick : Time → ℕ → BrokerReadView F → Engine F → Run F
  unfolding and_then
  on_tick now today broker e = and_then (polled now (Methods.poll now e.core.om) e) λ e₁.
      and_then (apply_events now today (Venue.poll now e₁.venue) e₁)
        λ e₂. (ok tt, check_broker now today broker e₂)

  -- `self.fsm.step(f, action)`
  unfoldable pub fsm_step :
      ℕ → FeatureVector F → GovernorAction → Engine F → Option (Signal F) × Engine F
  fsm_step trace v action e =
      let c = e.core in
      let (track, sig) = step c.fsm e.s.strategy trace v action (get_or v.symbol fresh c.tracks) in
      (sig, record e { core = record c { tracks = insert v.symbol track c.tracks } })

  -- `last and (now - last).total_seconds() * 1000 < self.s.signal_interval_ms`
  abbrev pub is_early : Time → Symbol → Engine F → Bool
  is_early now symbol e = elim (lookup symbol e.last_eval) [
    | none ↦ false
    | some last ↦ ltb now (last + e.s.signal_interval_ms * 1000)
  ]

  -- the paper venue's events at a quote; in live mode there are none
  unfoldable pub venue_quote : Time → ℕ → Quote F → Engine F → Run F
  venue_quote now today q e =
      if e.live then (ok tt, e) else apply_events now today (Venue.on_quote now q e.venue) e

  module _ (names : Naming) (pow : F → F → F) where
    -- `_evaluate` from the state machine's step on
    unfoldable pub act : Time → FeatureVector F → Quote F → Option (Signal F) × Engine F → Run F
    act now v q (none, e) = (ok tt, e)
    act now v q (some sig, e) = submit_entry names pow now sig v q e

    -- `_evaluate` from the anomaly flags on
    unfoldable pub consider : Time → View F → FeatureVector F → Quote F → Engine F → Run F
    consider now w v q e =
        let governor = update_context (lit 0) w.sector_return e.governor in
        let action = (decide v now governor).0 in
        if w.anomalous
        then (ok tt, e)
        else if lt v.data_confidence e.s.min_data_confidence
        then (ok tt, e)
        else act now v q (fsm_step w.trace v action (record e { governor = governor }))

    -- `_evaluate` once there is a feature vector
    unfoldable pub decide_exit : Time → View F → FeatureVector F → Quote F → Engine F → Run F
    decide_exit now w v q e =
        let (pm, instr) = check_exits q (some v) now e.s.strategy.max_holding_seconds e.core.pm in
        let e' = record e { core = record e.core { pm = pm } } in
        if is_some instr || e.emergency
        then submit_exit names now q instr e'
        else consider now w v q e'

    unfoldable pub evaluate : Time → View F → Quote F → Engine F → Run F
    evaluate now w q e =
        let e' = record e { last_eval = insert q.symbol now e.last_eval } in
        if is_early now q.symbol e
        then (ok tt, e)
        else elim w.features [ none ↦ (ok tt, e') | some v ↦ decide_exit now w v q e' ]

    -- `on_quote`; `is_new` is what `quality.on_quote` returns
    unfoldable pub on_quote :
        Time → ℕ → BrokerReadView F → Bool → View F → Quote F → Engine F → Run F
    unfolding and_then
    on_quote now today broker is_new w q e =
        let heard = record e.governor { health = on_event q.symbol q.ts none e.governor.health } in
        if not is_new
        then (ok tt, e)
        else and_then (venue_quote now today q (record e { governor = heard })) λ e₁.
          and_then (on_tick now today broker e₁)
            λ e₂. if contains q.symbol e₂.s.symbols then evaluate now w q e₂ else (ok tt, e₂)

  module _ (random : ℕ → F) where
    unfoldable pub venue_trade : Time → ℕ → Trade F → Engine F → Run F
    venue_trade now today t e =
        if e.live
        then (ok tt, e)
        else apply_events now today (Venue.on_trade random now t e.venue) e

    -- `on_trade`; `is_new` is what `quality.on_trade` returns
    unfoldable pub on_trade : Time → ℕ → BrokerReadView F → Bool → Trade F → Engine F → Run F
    unfolding and_then
    on_trade now today broker is_new t e =
        let r = get_or t.symbol t.size e.trade_rate in
        let rate = ratio 95 100 ⊗ r ⊕ ratio 5 100 ⊗ t.size in
        if not is_new
        then (ok tt, e)
        else and_then
            (venue_trade now today t (record e { trade_rate = insert t.symbol rate e.trade_rate }))
            (λ e₁. on_tick now today broker e₁)

  unfoldable pub shutdown : Bool → Engine F → Engine F
  shutdown flatten e = record e { emergency = flatten }
