-- ===== src/Runtime/Steps.antt =====
-- runtime.py: what the venue's events and the periodic work leave of the orders and of the settings.
use liquidity_bot.Prelude.{
  ℕ, ◌≡◌, refl, ap, ◌∙◌, true, List, [], ◌∷◌, ◌++◌, arith, if◌then◌else◌, if_cases, All,
}
use liquidity_bot.Float.{Float, IsOrdered, lit, ◌≼◌}
use liquidity_bot.Models.{Coid, Time, Quote, Trade}
use liquidity_bot.Orders.{ok, err, Outcome}
use liquidity_bot.Orders.Methods
use liquidity_bot.Orders.Evolution.{Follows, Follows-refl, Evolves-trans}
use liquidity_bot.Orders.Steps.{poll-Follows}
use liquidity_bot.Reconciler.{BrokerReadView, reconcile}
use liquidity_bot.Session.{SessionEngine, VenueEvent}
use liquidity_bot.Session.Evolution.{
  IsAdmissible, Proceeds, tell_ended-Proceeds, apply_venue_events-Proceeds,
}
use liquidity_bot.Venue
use liquidity_bot.Venue.{PaperVenue, cancel}
use liquidity_bot.Venue.Events.{on_quote-IsAdmissible, on_trade-IsAdmissible, poll-IsAdmissible}
use liquidity_bot.Runtime.{Engine, Run, and_then}
use liquidity_bot.Runtime.Loop.{
  cancel_all, polled, apply_events, fail_closed, is_recon_due, check_broker, on_tick, venue_quote,
  venue_trade,
}

module _ {F : Type 0} ⦃f : Float F⦄ where
  -- The settings stay, and so does the kill switch once it is set.
  pub record Keeps (e e' : Engine F) : Type 0 where
    pub settings : e'.s ≡ e.s
    pub venue : e'.venue.cfg ≡ e.venue.cfg
    pub killed : e.core.risk.cfg.kill_switch ≡ true → e'.core.risk.cfg.kill_switch ≡ true

  -- That, and the orders evolve.
  pub record Goes (e e' : Engine F) : Type 0 where
    pub keeps : Keeps e e'
    pub orders : Follows e.core.om e'.core.om

  pub Keeps-refl : (e : Engine F) → Keeps e e
  Keeps-refl e = record { settings = refl; venue = refl; killed = λ h. h }

  pub Keeps-trans : (a b c : Engine F) → Keeps a b → Keeps b c → Keeps a c
  Keeps-trans a b c h k = record {
    settings = k.settings ∙ h.settings;
    venue = k.venue ∙ h.venue;
    killed = λ x. k.killed (h.killed x);
  }

  cancel-cfg : (now : Time) (k : Coid) (v : PaperVenue F) → (cancel now k v).cfg ≡ v.cfg
  unfolding cancel
  cancel-cfg now k v = ground arith

  module _ (laws : IsOrdered F) where
    pub Goes-refl : (e : Engine F) → Goes e e
    Goes-refl e = record { keeps = Keeps-refl e; orders = Follows-refl laws e.core.om }

    pub Goes-trans : (a b c : Engine F) → Goes a b → Goes b c → Goes a c
    Goes-trans a b c h k = record {
      keeps = Keeps-trans a b c h.keeps k.keeps;
      orders = (
        k.orders.0 ∙ h.orders.0,
        Evolves-trans laws a.core.om.orders b.core.om.orders c.core.om.orders h.orders.1 k.orders.1,
      );
    }

    pub core-Goes :
        (e : Engine F) (core : SessionEngine F)
        → Proceeds e.core core
        → Goes e (record e { core = core })
    core-Goes e core h = record {
      keeps = record {
        settings = refl;
        venue = refl;
        killed = λ x. ap (λ c. c.kill_switch) h.settings ∙ x;
      };
      orders = h.orders;
    }

    pub and_then-Goes :
        (e : Engine F) (r : Run F) (rest : Engine F → Run F)
        → Goes e r.1
        → (Goes e r.1 → Goes r.1 (rest r.1).1)
        → Goes e (and_then r rest).1
    unfolding and_then
    and_then-Goes e (ok _, e') rest h k = Goes-trans e e' (rest e').1 h (k h)
    and_then-Goes e (err x, e') rest h k = h

    cancel_one-Goes :
        (now : Time) (k : Coid) (e : Engine F)
        → Goes e (
            if e.live
            then record e { cancels = e.cancels ++ (k ∷ []) }
            else record e { venue = cancel now k e.venue })
    cancel_one-Goes now k e =
        if_cases (Goes e) e.live (record e { cancels = e.cancels ++ (k ∷ []) })
          (record e { venue = cancel now k e.venue })
          (λ _. record {
            keeps = record { settings = refl; venue = refl; killed = λ h. h };
            orders = Follows-refl laws e.core.om;
          })
          (λ _. record {
            keeps = record { settings = refl; venue = cancel-cfg now k e.venue; killed = λ h. h };
            orders = Follows-refl laws e.core.om;
          })

    cancel_all-Goes : (now : Time) (ks : List Coid) (e : Engine F) → Goes e (cancel_all now ks e)
    unfolding cancel_all
    cancel_all-Goes now [] e = Goes-refl e
    cancel_all-Goes now (k ∷ ks) e =
        Goes-trans e _ _ (cancel_one-Goes now k e) (cancel_all-Goes now ks _)

    polled-Goes :
        (now : Time) (r : Outcome F (List Coid)) (e : Engine F)
        → Follows e.core.om r.1
        → Goes e (polled now r e).1
    unfolding polled
    polled-Goes now (ok ks, om) e h =
        let told = core-Goes e _ (tell_ended-Proceeds laws now e.core om h) in
        Goes-trans e _ _ told (cancel_all-Goes now ks _)
    polled-Goes now (err x, om) e h = core-Goes e _ (tell_ended-Proceeds laws now e.core om h)

    pub apply_events-Goes :
        (now : Time) (today : ℕ) (r : PaperVenue F × List (VenueEvent F)) (e : Engine F)
        → r.0.cfg ≡ e.venue.cfg
        → All IsAdmissible r.1
        → Goes e (apply_events now today r e).1
    unfolding apply_events
    apply_events-Goes now today (v, evs) e same h =
        let p = apply_venue_events-Proceeds laws now today evs e.core h in
        record {
          keeps = record {
            settings = refl;
            venue = same;
            killed = λ x. ap (λ c. c.kill_switch) p.settings ∙ x;
          };
          orders = p.orders;
        }

    check_broker-Goes :
        (now : Time) (today : ℕ) (broker : BrokerReadView F) (e : Engine F)
        → Goes e (check_broker now today broker e)
    unfolding check_broker fail_closed
    check_broker-Goes now today broker e =
        let same = Follows-refl laws e.core.om in
        if_cases (Goes e) (is_recon_due now e) _ _
          (λ _.
            if_cases (Goes e) (reconcile e.core.pm.positions broker).ok _ _
              (λ _. record {
                keeps = record { settings = refl; venue = refl; killed = λ h. h };
                orders = same;
              })
              (λ _. record {
                keeps = record { settings = refl; venue = refl; killed = λ _. refl };
                orders = same;
              }))
          (λ _. Goes-refl e)

    pub on_tick-Goes :
        (now : Time) (today : ℕ) (broker : BrokerReadView F) (e : Engine F)
        → Goes e (on_tick now today broker e).1
    unfolding on_tick
    on_tick-Goes now today broker e =
        and_then-Goes e (polled now (Methods.poll now e.core.om) e) _
          (polled-Goes now (Methods.poll now e.core.om) e (poll-Follows laws now e.core.om))
          (λ _.
            let e₁ = (polled now (Methods.poll now e.core.om) e).1 in
            and_then-Goes e₁ (apply_events now today (Venue.poll now e₁.venue) e₁) _
              (apply_events-Goes now today (Venue.poll now e₁.venue) e₁ (unfold Venue.poll in refl)
                (poll-IsAdmissible laws now e₁.venue))
              (λ _. check_broker-Goes now today broker _))

    module _ (e : Engine F) (least : lit 0 ≼ e.venue.cfg.partial_fill_min_shares) where
      pub venue_quote-Goes :
          (now : Time) (today : ℕ) (q : Quote F) → Goes e (venue_quote now today q e).1
      unfolding venue_quote
      venue_quote-Goes now today q =
          if_cases {A = Run F} (λ r. Goes e r.1) e.live _ _ (λ _. Goes-refl e)
            (λ _.
              apply_events-Goes now today (Venue.on_quote now q e.venue) e
                (unfold Venue.on_quote in refl) (on_quote-IsAdmissible laws now q e.venue least))

      pub venue_trade-Goes :
          (random : ℕ → F) (now : Time) (today : ℕ) (t : Trade F)
          → Goes e (venue_trade random now today t e).1
      unfolding venue_trade
      venue_trade-Goes random now today t =
          if_cases {A = Run F} (λ r. Goes e r.1) e.live _ _ (λ _. Goes-refl e)
            (λ _.
              apply_events-Goes now today (Venue.on_trade random now t e.venue) e
                (unfold Venue.on_trade in refl)
                (on_trade-IsAdmissible laws random e.venue least now t))
