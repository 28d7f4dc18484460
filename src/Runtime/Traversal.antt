-- ===== src/Runtime/Traversal.antt =====
-- runtime.py: a relation between the engine before and after each part of a handler that is kept by the
-- venue's events, by the settings that a handler writes, and by the submission of an entry and of an exit
-- is kept by every handler.
use liquidity_bot.Prelude.{
  ◌≡◌, refl, not, ◌||◌, Option, none, some, if_cases, lookup, insert, is_some,
}
use liquidity_bot.Float.{Float, IsOrdered, lit, lt, ◌≼◌}
use liquidity_bot.Models.{Time, Quote, Signal, mid}
use liquidity_bot.Models.Features.{FeatureVector}
use liquidity_bot.Orders.{ok, err}
use liquidity_bot.Positions.{ExitInstruction, check_exits}
use liquidity_bot.Runtime.{Engine, Run, View, Naming, and_then}
use liquidity_bot.Runtime.Submit.{flatten, submit_entry, open_exit, submit_exit}
use liquidity_bot.Runtime.Loop.{fsm_step, is_early, act, consider, decide_exit, evaluate}
use liquidity_bot.Prelude.{
  ℕ, refl, Bool, not, none, if◌then◌else◌, if_cases, insert, contains, get_or,
}
use liquidity_bot.Float.{Float, IsOrdered, lit, ◌≼◌, ◌⊕◌, ◌⊗◌, ratio}
use liquidity_bot.Models.{Time, Quote, Trade, mid}
use liquidity_bot.Orders.{ok}
use liquidity_bot.Health.{on_event}
use liquidity_bot.Reconciler.{BrokerReadView}
use liquidity_bot.Runtime.{Engine, Run, View, Naming}
use liquidity_bot.Runtime.Submit.{flatten}
use liquidity_bot.Runtime.Loop.{
  evaluate, venue_quote, on_quote, venue_trade, on_trade, on_tick, shutdown,
}
use liquidity_bot.Runtime.Steps.{on_tick-Goes, venue_quote-Goes, venue_trade-Goes}
use liquidity_bot.Runtime.Events.{
  Event, quote, trade, tick, stop, Occurrence, handle_event, handle, IsPriced,
}
use liquidity_bot.Runtime.Steps.{Goes}

module _ {F : Type 0} ⦃f : Float F⦄ where
  pub record Rules (R : Engine F → Engine F → Type 0) : Type 0 where
    pub stay : (e : Engine F) → R e e
    pub trans : (a b c : Engine F) → R a b → R b c → R a c
    pub goes : (e e' : Engine F) → Goes e e' → R e e'
    pub same :
        (e e' : Engine F)
        → e'.core.om ≡ e.core.om
        → e'.core.risk.cfg ≡ e.core.risk.cfg
        → e'.venue.cfg ≡ e.venue.cfg
        → e'.s ≡ e.s
        → R e e'
    pub entry :
        (names : Naming) (pow : F → F → F) (now : Time) (q : Quote F)
        → lit 0 ≼ mid q
        → (sig : Signal F) (v : FeatureVector F) (e : Engine F)
        → R e (submit_entry names pow now sig v q e).1
    pub exits :
        (names : Naming) (now : Time) (q : Quote F)
        → lit 0 ≼ mid q
        → (i : ExitInstruction F) (e : Engine F) → R e (open_exit names now q i e).1

module _ {F : Type 0} ⦃f : Float F⦄ (laws : IsOrdered F) (R : Engine F → Engine F → Type 0)
    (rules : Rules R) where
  pub and_then-R :
      (e : Engine F) (r : Run F) (rest : Engine F → Run F)
      → R e r.1
      → (R e r.1 → R r.1 (rest r.1).1)
      → R e (and_then r rest).1
  unfolding and_then
  and_then-R e (ok _, e') rest h k = rules.trans e e' (rest e').1 h (k h)
  and_then-R e (err x, e') rest h k = h

  module _ (names : Naming) (pow : F → F → F) (now : Time) (q : Quote F)
      (priced : lit 0 ≼ mid q) where
    submit_exit-R :
        (i : Option (ExitInstruction F)) (e : Engine F) → R e (submit_exit names now q i e).1
    unfolding submit_exit
    submit_exit-R (some i) e = rules.exits names now q priced i e
    submit_exit-R none e =
        elim (lookup q.symbol e.core.pm.positions)
          as (λ p.
            R e
              (elim p as (λ _. Run F) [
                | none ↦ (ok tt, e)
                | some pos ↦ open_exit names now q (flatten q.symbol pos) e
              ]).1) [
                | none ↦ rules.stay e
                | some pos ↦ rules.exits names now q priced (flatten q.symbol pos) e
              ]

    act-R :
        (v : FeatureVector F) (e : Engine F) (r : Option (Signal F) × Engine F)
        → R e r.1
        → R e (act names pow now v q r).1
    unfolding act
    act-R v e (none, e') h = h
    act-R v e (some sig, e') h = rules.trans e e' _ h (rules.entry names pow now q priced sig v e')

    consider-R :
        (w : View F) (v : FeatureVector F) (e : Engine F) → R e (consider names pow now w v q e).1
    unfolding consider fsm_step
    consider-R w v e =
        if_cases {A = Run F} (λ r. R e r.1) w.anomalous _ _ (λ _. rules.stay e)
          (λ _.
            if_cases {A = Run F} (λ r. R e r.1) (lt v.data_confidence e.s.min_data_confidence) _ _
              (λ _. rules.stay e) (λ _. act-R v e _ (rules.same e _ refl refl refl refl)))

    decide_exit-R :
        (w : View F) (v : FeatureVector F) (e : Engine F)
        → R e (decide_exit names pow now w v q e).1
    unfolding decide_exit
    decide_exit-R w v e =
        let exits = check_exits q (some v) now e.s.strategy.max_holding_seconds e.core.pm in
        let e' = record e { core = record e.core { pm = exits.0 } } in
        let same = rules.same e e' refl refl refl refl in
        if_cases {A = Run F} (λ r. R e r.1) (is_some exits.1 || e.emergency) _ _
          (λ _. rules.trans e e' _ same (submit_exit-R exits.1 e'))
          (λ _. rules.trans e e' _ same (consider-R w v e'))

    pub evaluate-R : (w : View F) (e : Engine F) → R e (evaluate names pow now w q e).1
    unfolding evaluate
    evaluate-R w e =
        let e' = record e { last_eval = insert q.symbol now e.last_eval } in
        let same = rules.same e e' refl refl refl refl in
        if_cases {A = Run F} (λ r. R e r.1) (is_early now q.symbol e) _ _ (λ _. rules.stay e)
          (λ _.
            elim w.features
              as (λ v.
                R e
                  (elim v as (λ _. Run F) [
                    | none ↦ (ok tt, e')
                    | some v ↦ decide_exit names pow now w v q e'
                  ]).1) [ none ↦ same | some v ↦ rules.trans e e' _ same (decide_exit-R w v e') ])

  module _ (names : Naming) (pow : F → F → F) (random : ℕ → F) where
    listed-R :
        (now : Time) (w : View F) (q : Quote F) (e : Engine F)
        → lit 0 ≼ mid q
        → R e (if contains q.symbol e.s.symbols then evaluate names pow now w q e else (ok tt, e)).1
    listed-R now w q e h =
        if_cases {A = Run F} (λ r. R e r.1) (contains q.symbol e.s.symbols) _ _
          (λ _. evaluate-R names pow now q h w e) (λ _. rules.stay e)

    on_tick-R :
        (now : Time) (today : ℕ) (broker : BrokerReadView F) (e : Engine F)
        → R e (on_tick now today broker e).1
    on_tick-R now today broker e =
        rules.goes e (on_tick now today broker e).1 (on_tick-Goes laws now today broker e)

    on_quote-R :
        (now : Time) (today : ℕ) (broker : BrokerReadView F) (is_new : Bool) (w : View F)
        (q : Quote F) (e : Engine F)
        → lit 0 ≼ mid q
        → lit 0 ≼ e.venue.cfg.partial_fill_min_shares
        → R e (on_quote names pow now today broker is_new w q e).1
    unfolding on_quote
    on_quote-R now today broker is_new w q e h least =
        let heard = record e {
          governor = record e.governor { health = on_event q.symbol q.ts none e.governor.health };
        } in
        let e₁ = (venue_quote now today q heard).1 in
        if_cases {A = Run F} (λ r. R e r.1) (not is_new) _ _ (λ _. rules.stay e)
          (λ _. rules.trans e heard _ (rules.same e heard refl refl refl refl) (
            and_then-R heard (venue_quote now today q heard) _
              (rules.goes heard e₁ (venue_quote-Goes laws heard least now today q))
              (λ _.
                and_then-R e₁ (on_tick now today broker e₁) _ (on_tick-R now today broker e₁)
                  (λ _. listed-R now w q (on_tick now today broker e₁).1 h))))

    on_trade-R :
        (now : Time) (today : ℕ) (broker : BrokerReadView F) (is_new : Bool) (t : Trade F)
        (e : Engine F)
        → lit 0 ≼ e.venue.cfg.partial_fill_min_shares
        → R e (on_trade random now today broker is_new t e).1
    unfolding on_trade
    on_trade-R now today broker is_new t e least =
        let r = get_or t.symbol t.size e.trade_rate in
        let rated = record e {
          trade_rate = insert t.symbol (ratio 95 100 ⊗ r ⊕ ratio 5 100 ⊗ t.size) e.trade_rate;
        } in
        let e₁ = (venue_trade random now today t rated).1 in
        if_cases {A = Run F} (λ r. R e r.1) (not is_new) _ _ (λ _. rules.stay e)
          (λ _. rules.trans e rated _ (rules.same e rated refl refl refl refl) (
            and_then-R rated (venue_trade random now today t rated) _
              (rules.goes rated e₁ (venue_trade-Goes laws rated least random now today t))
              (λ _. on_tick-R now today broker e₁)))

    pub handle-R :
        (x : Occurrence F) (e : Engine F)
        → IsPriced x.event
        → lit 0 ≼ e.venue.cfg.partial_fill_min_shares
        → R e (handle names pow random x e).1
    unfolding handle
    handle-R x e h least = cases x.event h
      where
        cases :
            (ev : Event F)
            → IsPriced ev
            → R e (handle_event names pow random x.now x.today x.broker ev e).1
        cases (quote is_new w q) h =
            unfold handle_event in on_quote-R x.now x.today x.broker is_new w q e h least
        cases (trade is_new t) h =
            unfold handle_event in on_trade-R x.now x.today x.broker is_new t e least
        cases tick h = unfold handle_event in on_tick-R x.now x.today x.broker e
        cases (stop flatten) h =
            unfold handle_event shutdown in rules.same e (shutdown flatten e) refl refl refl refl
