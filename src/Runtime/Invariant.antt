-- ===== src/Runtime/Invariant.antt =====
-- runtime.py: every handler keeps the order manager's invariant.
use liquidity_bot.Prelude.{◌≡◌, refl, ap, sym, ◌∙◌, subst, [], ◌∷◌, ◌++◌, if_cases, insert}
use liquidity_bot.Float.{Float, IsOrdered, lit, ◌≼◌}
use liquidity_bot.Models.{Time, Signal, OrderRequest}
use liquidity_bot.Orders.{ok, err, ManagedOrder, Outcome}
use liquidity_bot.Orders.Methods.{mark_submitting}
use liquidity_bot.Orders.Evolution.{Follows-refl}
use liquidity_bot.Orders.Steps.{mark_submitting-Follows}
use liquidity_bot.Orders.Invariant.{IsValid, Follows-IsValid}
use liquidity_bot.Positions.{ExitReason}
use liquidity_bot.Adaptive.{Tif, day}
use liquidity_bot.Session.{called}
use liquidity_bot.Session.Evolution.{called-Proceeds}
use liquidity_bot.Venue
use liquidity_bot.Runtime.{Engine, in_core, fail_entry}
use liquidity_bot.Runtime.Submit.{place, dispatch, entry_created, exit_created}
use liquidity_bot.Runtime.Steps.{Keeps, Goes, Keeps-refl, Keeps-trans, core-Goes, and_then-Goes}

module _ {F : Type 0} ⦃f : Float F⦄ where
  -- the order manager's invariant, and settings that are not negative
  pub record IsFit (e : Engine F) : Type 0 where
    pub valid : IsValid e.core.om
    pub least : lit 0 ≼ e.venue.cfg.partial_fill_min_shares
    pub risk : lit 0 ≼ e.s.risk_per_trade_usd

  -- what every part of a handler does
  pub record Leads (e e' : Engine F) : Type 0 where
    pub keeps : Keeps e e'
    pub fit : IsFit e → IsFit e'

  pub Leads-refl : (e : Engine F) → Leads e e
  Leads-refl e = record { keeps = Keeps-refl e; fit = λ h. h }

  pub Leads-trans : (a b c : Engine F) → Leads a b → Leads b c → Leads a c
  Leads-trans a b c h k = record {
    keeps = Keeps-trans a b c h.keeps k.keeps;
    fit = λ x. k.fit (h.fit x);
  }

  Keeps-IsFit : (e e' : Engine F) → Keeps e e' → IsValid e'.core.om → IsFit e → IsFit e'
  Keeps-IsFit e e' h v x = record {
    valid = v;
    least = subst (λ c. lit 0 ≼ c.partial_fill_min_shares) (sym h.venue) x.least;
    risk = subst (λ s. lit 0 ≼ s.risk_per_trade_usd) (sym h.settings) x.risk;
  }

  -- A step that leaves the orders and these settings.
  pub same-Leads :
      (e e' : Engine F)
      → e'.core.om ≡ e.core.om
      → e'.core.risk.cfg ≡ e.core.risk.cfg
      → e'.venue.cfg ≡ e.venue.cfg
      → e'.s ≡ e.s
      → Leads e e'
  same-Leads e e' om risk venue s =
      let keeps : Keeps e e' = record {
        settings = s;
        venue = venue;
        killed = λ x. ap (λ c. c.kill_switch) risk ∙ x;
      } in
      record { keeps = keeps; fit = λ x. Keeps-IsFit e e' keeps (rw om x.valid) x }

  module _ (laws : IsOrdered F) where
    pub Goes-Leads : (e e' : Engine F) → Goes e e' → Leads e e'
    Goes-Leads e e' h = record {
      keeps = h.keeps;
      fit = λ x.
          Keeps-IsFit e e' h.keeps (Follows-IsValid laws e.core.om e'.core.om h.orders x.valid) x;
    }

    place-Goes :
        (now : Time) (req : OrderRequest F) (tif : Tif) (e : Engine F)
        → Goes e (place now req tif e)
    unfolding place Venue.submit
    place-Goes now req tif e =
        if_cases (Goes e) e.live (record e { sent = e.sent ++ (req ∷ []) })
          (record e { venue = Venue.submit now req tif e.venue })
          (λ _. record {
            keeps = record { settings = refl; venue = refl; killed = λ h. h };
            orders = Follows-refl laws e.core.om;
          })
          (λ _. record {
            keeps = record { settings = refl; venue = refl; killed = λ h. h };
            orders = Follows-refl laws e.core.om;
          })

    pub dispatch-Goes :
        (now : Time) (req : OrderRequest F) (tif : Tif) (e : Engine F)
        → Goes e (dispatch now req tif e).1
    unfolding dispatch in_core
    dispatch-Goes now req tif e =
        let marked = mark_submitting now req.client_order_id e.core.om in
        let core = (called now marked e.core).1 in
        and_then-Goes laws e (in_core (called now marked e.core) e) _
          (core-Goes laws e core (
            called-Proceeds laws now marked e.core
              (mark_submitting-Follows laws now req.client_order_id e.core.om)))
          (λ _. place-Goes now req tif (record e { core = core }))

    -- what a created order, and one that is refused, leave of the engine
    created-Leads : (e e' : Engine F) → Keeps e e' → (IsFit e → IsValid e'.core.om) → Leads e e'
    created-Leads e e' h v = record { keeps = h; fit = λ x. Keeps-IsFit e e' h (v x) x }

    pub entry_created-Leads :
        (now : Time) (sig : Signal F) (req : OrderRequest F) (tif : Tif) (e : Engine F)
        (r : Outcome F (ManagedOrder F))
        → (IsFit e → IsValid r.1)
        → Leads e (entry_created now sig req tif e r).1
    unfolding entry_created fail_entry
    entry_created-Leads now sig req tif e (err x, om) v =
        created-Leads e _ (record { settings = refl; venue = refl; killed = λ h. h }) v
    entry_created-Leads now sig req tif e (ok o, om) v =
        let core = record e.core {
          om = om;
          pending_sig = insert req.client_order_id sig e.core.pending_sig;
        } in
        let e' = record e { core = core } in
        Leads-trans e e' (dispatch now req tif e').1
          (created-Leads e e' (record { settings = refl; venue = refl; killed = λ h. h }) v)
          (Goes-Leads e' (dispatch now req tif e').1 (dispatch-Goes now req tif e'))

    pub exit_created-Leads :
        (now : Time) (reason : ExitReason) (req : OrderRequest F) (e : Engine F)
        (r : Outcome F (ManagedOrder F))
        → (IsFit e → IsValid r.1)
        → Leads e (exit_created now reason req e r).1
    unfolding exit_created
    exit_created-Leads now reason req e (err x, om) v =
        created-Leads e _ (record { settings = refl; venue = refl; killed = λ h. h }) v
    exit_created-Leads now reason req e (ok o, om) v =
        let core = record e.core {
          om = om;
          pending_exit = insert req.client_order_id reason e.core.pending_exit;
        } in
        let e' = record e { core = core } in
        Leads-trans e e' (dispatch now req day e').1
          (created-Leads e e' (record { settings = refl; venue = refl; killed = λ h. h }) v)
          (Goes-Leads e' (dispatch now req day e').1 (dispatch-Goes now req day e'))
