-- ===== src/Session/Evolution.antt =====
-- runtime.py: what the venue's events leave of the order manager and of the risk manager's settings.
use liquidity_bot.Prelude.{
  ℕ, ◌≡◌, refl, ap, ◌∙◌, Bool, List, [], ◌∷◌, arith, lookup, Option-cases, inl, inr, All, if_cases,
  get_or,
}
use liquidity_bot.Float.{Float, IsOrdered, lit, ◌≼◌}
use liquidity_bot.Models.{Coid, Time, Symbol, Fill}
use liquidity_bot.Orders.{ManagedOrder, OrderManager, Outcome, ok, err, is_working}
use liquidity_bot.Orders.Methods
use liquidity_bot.Orders.Methods.{on_ack, on_reject, request_cancel, on_cancel_ack}
use liquidity_bot.Orders.Evolution.{Follows, Follows-refl, Evolves-trans}
use liquidity_bot.Orders.Steps.{
  on_ack-Follows, on_reject-Follows, request_cancel-Follows, on_cancel_ack-Follows, on_fill-Follows,
}
use liquidity_bot.Risk.{RiskManager, count_result, pause}
use liquidity_bot.Risk
use liquidity_bot.Positions.{ClosedTrade, unnamed, on_exit_fill}
use liquidity_bot.Ledger.PositionLog.{exit, append_fill}
use liquidity_bot.Session.{
  SessionEngine, Step, VenueEvent, ack, cancel_ack, reject, fill, entry_failed, on_order_terminal,
  tell_all, tell_ended, enter, book_trade, share, leave, attribute, called, attributed, on_fill,
  requested, forget, then_ack, apply_event, proceed, apply_venue_events,
}

module _ {F : Type 0} ⦃f : Float F⦄ where
  -- Fills are not negative.
  abbrev pub IsAdmissible : VenueEvent F → Type 0
  IsAdmissible (fill x) = lit 0 ≼ x.quantity
  IsAdmissible _ = Unit {0}

  -- The orders evolve, and the risk manager's settings stay.
  pub record Proceeds (e e' : SessionEngine F) : Type 0 where
    pub orders : Follows e.om e'.om
    pub settings : e'.risk.cfg ≡ e.risk.cfg

  entry_failed-same :
      (now : Time) (o : ManagedOrder F) (e : SessionEngine F)
      → ((entry_failed now o e).om ≡ e.om) × ((entry_failed now o e).risk ≡ e.risk)
  unfolding entry_failed
  entry_failed-same now o e = ground arith

  on_order_terminal-same :
      (now : Time) (o : ManagedOrder F) (e : SessionEngine F)
      → ((on_order_terminal now o e).om ≡ e.om) × ((on_order_terminal now o e).risk ≡ e.risk)
  unfolding on_order_terminal
  on_order_terminal-same now o e = entry_failed-same now o e

  tell_all-same :
      (now : Time) (os : List (ManagedOrder F)) (e : SessionEngine F)
      → ((tell_all now os e).om ≡ e.om) × ((tell_all now os e).risk ≡ e.risk)
  unfolding tell_all
  tell_all-same now [] e = (refl, refl)
  tell_all-same now (o ∷ os) e =
      let (a, b) = tell_all-same now os (on_order_terminal now o e) in
      let (c, d) = on_order_terminal-same now o e in (a ∙ c, b ∙ d)

  on_trade_closed-cfg :
      (s : Symbol) (pnl : F) (now : Time) (r : RiskManager F)
      → (Risk.on_trade_closed s pnl now r).cfg ≡ r.cfg
  unfolding Risk.on_trade_closed count_result pause
  on_trade_closed-cfg s pnl now r = ground arith

  share-same :
      (s : Symbol) (e : SessionEngine F)
      → ((share s e).om ≡ e.om) × ((share s e).risk.cfg ≡ e.risk.cfg)
  unfolding share
  share-same s e = ground arith

  book_trade-same :
      (now : Time) (today : ℕ) (t : ClosedTrade F) (e : SessionEngine F)
      → ((book_trade now today t e).om ≡ e.om) × ((book_trade now today t e).risk.cfg ≡ e.risk.cfg)
  unfolding book_trade
  book_trade-same now today t e = (refl, on_trade_closed-cfg t.symbol t.pnl now e.risk)

  leave-same :
      (now : Time) (today : ℕ) (x : Fill F) (e : SessionEngine F)
      → ((leave now today x e).om ≡ e.om) × ((leave now today x e).risk.cfg ≡ e.risk.cfg)
  unfolding leave
  leave-same now today x e =
      let reason = get_or x.client_order_id unnamed e.pending_exit in
      let e' = record e {
        pm = (on_exit_fill x reason e.pm).0;
        pos_log = append_fill (exit x) e.pos_log;
      } in
      elim (Option-cases (on_exit_fill x reason e.pm).1) [
        | inl none_closed ↦ rw none_closed (share-same x.symbol e')
        | inr (t, closed) ↦ rw closed (book_trade-same now today t e')
      ]

  attribute-same :
      (now : Time) (today : ℕ) (x : Fill F) (o : ManagedOrder F) (e : SessionEngine F)
      → ((attribute now today x o e).om ≡ e.om)
        × ((attribute now today x o e).risk.cfg ≡ e.risk.cfg)
  unfolding attribute enter
  attribute-same now today x o e = ground (arith, leave-same now today x e)

  module _ (laws : IsOrdered F) where
    pub Proceeds-refl : (e : SessionEngine F) → Proceeds e e
    Proceeds-refl e = record { orders = Follows-refl laws e.om; settings = refl }

    pub Proceeds-trans : (a b c : SessionEngine F) → Proceeds a b → Proceeds b c → Proceeds a c
    Proceeds-trans a b c h k = record {
      orders = (
        k.orders.0 ∙ h.orders.0,
        Evolves-trans laws a.om.orders b.om.orders c.om.orders h.orders.1 k.orders.1,
      );
      settings = k.settings ∙ h.settings;
    }

    pub tell_ended-Proceeds :
        (now : Time) (e : SessionEngine F) (om : OrderManager F)
        → Follows e.om om
        → Proceeds e (tell_ended now (record e { om = om }))
    unfolding tell_ended
    tell_ended-Proceeds now e om h =
        let (a, b) = tell_all-same now om.ended (record e { om = record om { ended = [] } }) in
        record { orders = rw a h; settings = ap (λ r. r.cfg) b }

    pub called-Proceeds :
        (now : Time) (r : Outcome F (Unit {0})) (e : SessionEngine F)
        → Follows e.om r.1
        → Proceeds e (called now r e).1
    unfolding called
    called-Proceeds now (r, om) e h = tell_ended-Proceeds now e om h

    attribute-Proceeds :
        (now : Time) (today : ℕ) (x : Fill F) (o : ManagedOrder F) (e : SessionEngine F)
        → Proceeds e (attribute now today x o e)
    attribute-Proceeds now today x o e =
        let (a, b) = attribute-same now today x o e in
        record { orders = rw a (Follows-refl laws e.om); settings = b }

    attributed-Proceeds :
        (now : Time) (today : ℕ) (x : Fill F) (e : SessionEngine F) (s : Step F)
        → Proceeds e s.1
        → Proceeds e (attributed now today x s).1
    unfolding attributed
    attributed-Proceeds now today x e (ok u, e') h =
        elim (Option-cases (lookup x.client_order_id e'.om.orders)) [
          | inl absent ↦ rw absent h
          | inr (o, stored) ↦ rw stored (
              Proceeds-trans e e' (attribute now today x o e') h
                (attribute-Proceeds now today x o e'))
        ]
    attributed-Proceeds now today x e (err _, e') h = h

    forget-Proceeds :
        (now : Time) (r : Outcome F Bool) (e : SessionEngine F)
        → Follows e.om r.1
        → Proceeds e (forget now r e).1
    unfolding forget
    forget-Proceeds now (ok _, om) e h = called-Proceeds now (ok tt, om) e h
    forget-Proceeds now (err x, om) e h = called-Proceeds now (err x, om) e h

    requested-Proceeds :
        (now : Time) (k : Coid) (e : SessionEngine F) → Proceeds e (requested now k e).1
    unfolding requested
    requested-Proceeds now k e = elim (Option-cases (lookup k e.om.orders)) [
      | inl absent ↦ rw absent (Proceeds-refl e)
      | inr (o, stored) ↦ rw stored (
          if_cases {A = Step F} (λ s. Proceeds e s.1) (is_working o.state)
            (forget now (request_cancel now k e.om) e) (ok tt, e)
            (λ _. forget-Proceeds now _ e (request_cancel-Follows laws now k e.om))
            (λ _. Proceeds-refl e))
    ]

    then_ack-Proceeds :
        (now : Time) (k : Coid) (e : SessionEngine F) (s : Step F)
        → Proceeds e s.1
        → Proceeds e (then_ack now k s).1
    unfolding then_ack
    then_ack-Proceeds now k e (ok _, e') h = Proceeds-trans e e' _ h (
        called-Proceeds now (on_cancel_ack now k e'.om) e' (on_cancel_ack-Follows laws now k e'.om))
    then_ack-Proceeds now k e (err x, e') h = h

    apply_event-Proceeds :
        (now : Time) (today : ℕ) (ev : VenueEvent F) (e : SessionEngine F)
        → IsAdmissible ev
        → Proceeds e (apply_event now today ev e).1
    unfolding apply_event on_fill
    apply_event-Proceeds now today (ack k) e h =
        called-Proceeds now (on_ack now k e.om) e (on_ack-Follows laws now k e.om)
    apply_event-Proceeds now today (cancel_ack k) e h =
        then_ack-Proceeds now k e (requested now k e) (requested-Proceeds now k e)
    apply_event-Proceeds now today (reject k reason) e h =
        called-Proceeds now (on_reject now k reason e.om) e
          (on_reject-Follows laws now k reason e.om)
    apply_event-Proceeds now today (fill x) e h =
        attributed-Proceeds now today x e (called now (Methods.on_fill now x e.om) e)
          (called-Proceeds now (Methods.on_fill now x e.om) e (on_fill-Follows laws now x e.om h))

    proceed-Proceeds :
        (e : SessionEngine F) (s : Step F) (rest : SessionEngine F → Step F)
        → Proceeds e s.1
        → ((e' : SessionEngine F) → Proceeds e' (rest e').1)
        → Proceeds e (proceed s rest).1
    unfolding proceed
    proceed-Proceeds e (ok _, e') rest h k = Proceeds-trans e e' (rest e').1 h (k e')
    proceed-Proceeds e (err x, e') rest h k = h

    pub apply_venue_events-Proceeds :
        (now : Time) (today : ℕ) (evs : List (VenueEvent F)) (e : SessionEngine F)
        → All IsAdmissible evs
        → Proceeds e (apply_venue_events now today evs e).1
    unfolding apply_venue_events
    apply_venue_events-Proceeds now today [] e h = Proceeds-refl e
    apply_venue_events-Proceeds now today (ev ∷ evs) e h =
        proceed-Proceeds e (apply_event now today ev e) (apply_venue_events now today evs)
          (apply_event-Proceeds now today ev e h.0)
          (λ e'. apply_venue_events-Proceeds now today evs e' h.1)
