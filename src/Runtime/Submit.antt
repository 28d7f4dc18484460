-- ===== src/Runtime/Submit.antt =====
-- runtime.py: `_submit_entry` and `_submit_exit`. `pow` is Python's `**` on floats.
use liquidity_bot.Prelude.{
  Bool, true, false, not, ◌&&◌, ◌||◌, Option, none, some, List, [], ◌∷◌, ◌++◌, ◌==◌, if◌then◌else◌,
  Dict, lookup, insert, keys, get_or,
}
use liquidity_bot.Float.{Float, ◌⊕◌, ◌⊗◌, ◌⊘◌, lit, ratio, le, abs, min, trunc}
use liquidity_bot.Models.{
  Symbol, Coid, Time, Signal, Quote, Position, OrderRequest, OrderType, limit, market, Intent,
  signed, mid, opposite,
}
use liquidity_bot.Models.Features.{FeatureVector}
use liquidity_bot.Orders.{
  ok, err, ManagedOrder, Outcome, create, reserved_notional, has_active_entry, active_orders,
}
use liquidity_bot.Orders.Methods.{mark_submitting}
use liquidity_bot.Risk.{size}
use liquidity_bot.Risk
use liquidity_bot.Portfolio.{size_multiplier}
use liquidity_bot.Portfolio
use liquidity_bot.Positions.{ExitReason, emergency_flatten, ExitInstruction}
use liquidity_bot.Adaptive.{Tif, day, ExecPlan, plan_entry}
use liquidity_bot.Journal.{seq_key_of, next_client_order_id}
use liquidity_bot.Session.{called}
use liquidity_bot.Venue
use liquidity_bot.Runtime.{
  Engine, Run, Naming, entry_text, exit_text, is_known, in_core, and_then, fail_entry,
}

-- `mo.request.intent == "exit"`
abbrev pub is_exit_intent : Intent → Bool
is_exit_intent Intent.exit = true
is_exit_intent _ = false

module _ {F : Type 0} ⦃f : Float F⦄ where
  unfoldable pub gross_of : F → Dict (Position F) → F
  unfolding abs
  gross_of acc [] = acc
  gross_of acc ((_, p) ∷ d) = gross_of (acc ⊕ abs (p.quantity ⊗ p.entry_price)) d

  unfoldable pub net_of : F → Dict (Position F) → F
  unfolding signed
  net_of acc [] = acc
  net_of acc ((_, p) ∷ d) = net_of (acc ⊕ signed p.side p.quantity ⊗ p.entry_price) d

  -- `ok` after the three gates
  unfoldable pub is_approved : Time → Signal F → FeatureVector F → Engine F → Bool
  is_approved now sig v e =
      let held = e.core.pm.positions in
      (Risk.approve sig v [] now e.core.risk).0
      && (Portfolio.approve sig (keys held) (gross_of (lit 0) held) (net_of (lit 0) held)
          (reserved_notional e.core.om) e.core.risk2).0
      && not (has_active_entry sig.symbol e.core.om.orders)

  unfoldable pub entry_qty : Signal F → FeatureVector F → Engine F → F
  entry_qty sig v e = trunc (size e.core.risk.cfg sig ⊗ size_multiplier v e.core.risk2)

  -- `"LIMIT" if plan.limit_price else "MARKET"`: Python takes zero for false.
  unfoldable pub order_type_of : Option F → OrderType
  order_type_of none = market
  order_type_of (some p) = if le p (lit 0) && le (lit 0) p then market else limit

  -- `adapter.place_order(req)` or `venue.submit(req, tif)`, which returns no events
  unfoldable pub place : Time → OrderRequest F → Tif → Engine F → Engine F
  place now req tif e =
      if e.live
      then record e { sent = e.sent ++ (req ∷ []) }
      else record e { venue = Venue.submit now req tif e.venue }

  -- from `om.mark_submitting` on
  unfoldable pub dispatch : Time → OrderRequest F → Tif → Engine F → Run F
  unfolding and_then
  dispatch now req tif e =
      and_then (in_core (called now (mark_submitting now req.client_order_id e.core.om) e.core) e)
        (λ e'. (ok tt, place now req tif e'))

  unfoldable pub entry_created :
      Time → Signal F → OrderRequest F → Tif → Engine F → Outcome F (ManagedOrder F) → Run F
  entry_created now sig req tif e (err _, om) =
      (ok tt, fail_entry now sig.symbol (record e { core = record e.core { om = om } }))
  entry_created now sig req tif e (ok _, om) =
      let core = record e.core {
        om = om;
        pending_sig = insert req.client_order_id sig e.core.pending_sig;
      } in
      dispatch now req tif (record e { core = core })

  unfoldable pub entry_request : Signal F → ExecPlan F → F → Coid → OrderRequest F
  entry_request sig plan qty k = record {
    symbol = sig.symbol;
    side = sig.side;
    quantity = qty;
    order_type = order_type_of plan.limit_price;
    limit_price = plan.limit_price;
    client_order_id = k;
    trace_id = sig.trace_id;
    intent = Intent.entry;
  }

  unfoldable pub exit_created :
      Time → ExitReason → OrderRequest F → Engine F → Outcome F (ManagedOrder F) → Run F
  exit_created now reason req e (err _, om) = (ok tt, record e { core = record e.core { om = om } })
  exit_created now reason req e (ok _, om) =
      let core = record e.core {
        om = om;
        pending_exit = insert req.client_order_id reason e.core.pending_exit;
      } in
      dispatch now req day (record e { core = core })

  -- whether one of these orders exits the symbol
  unfoldable pub has_exit : Symbol → List (ManagedOrder F) → Bool
  has_exit symbol [] = false
  has_exit symbol (o ∷ os) =
      o.request.symbol == symbol && is_exit_intent o.request.intent || has_exit symbol os

  -- `emergency_flatten`: what closes the position of the symbol
  unfoldable pub flatten : Symbol → Position F → ExitInstruction F
  flatten symbol pos = record {
    symbol = symbol;
    side = opposite pos.side;
    quantity = pos.quantity;
    reason = emergency_flatten;
    trace_id = pos.trace_id;
  }

  unfoldable pub exit_request : Symbol → ExitInstruction F → Coid → OrderRequest F
  exit_request symbol i k = record {
    symbol = symbol;
    side = i.side;
    quantity = i.quantity;
    order_type = market;
    limit_price = none;
    client_order_id = k;
    trace_id = i.trace_id;
    intent = Intent.exit;
  }

  module _ (names : Naming) where
    unfoldable pub plan_of :
        (F → F → F) → Signal F → FeatureVector F → Quote F → Engine F → ExecPlan F
    unfolding min
    plan_of pow sig v q e =
        plan_entry pow v q sig.side (min (lit 1) (sig.score ⊘ lit 6))
          (get_or sig.symbol (lit 100) e.trade_rate) (ratio 1 100) 4000

    -- `_submit_entry` from the plan on, for the quantity
    unfoldable pub open_entry :
        (F → F → F) → Time → Signal F → FeatureVector F → Quote F → F → Engine F → Run F
    open_entry pow now sig v q qty e =
        let plan = plan_of pow sig v q e in
        let key = seq_key_of (names.date_text now) (names.symbol_text sig.symbol) entry_text in
        let (id, journal) = next_client_order_id key e.journal in
        let req = entry_request sig plan qty (names.coid_of id) in
        let e' = record e { journal = journal } in
        if is_known names id e'
        then (ok tt, e')
        else entry_created now sig req plan.tif e'
            (create now req (mid q) e.s.risk_per_trade_usd (some plan.ttl_ms) 0 e.core.om)

    unfoldable pub submit_entry :
        (F → F → F) → Time → Signal F → FeatureVector F → Quote F → Engine F → Run F
    submit_entry pow now sig v q e =
        if not (is_approved now sig v e)
        then (ok tt, fail_entry now sig.symbol e)
        else if le (entry_qty sig v e) (lit 0)
        then (ok tt, fail_entry now sig.symbol e)
        else open_entry pow now sig v q (entry_qty sig v e) e

    -- `_submit_exit` for the instruction
    unfoldable pub open_exit : Time → Quote F → ExitInstruction F → Engine F → Run F
    open_exit now q i e =
        let key = seq_key_of (names.date_text now) (names.symbol_text q.symbol) exit_text in
        let (id, journal) = next_client_order_id key e.journal in
        let req = exit_request q.symbol i (names.coid_of id) in
        if has_exit q.symbol (active_orders e.core.om.orders)
        then (ok tt, e)
        else exit_created now i.reason req (record e { journal = journal })
            (create now req (mid q) (lit 0) none e.s.latency_ms e.core.om)

    unfoldable pub submit_exit : Time → Quote F → Option (ExitInstruction F) → Engine F → Run F
    submit_exit now q (some i) e = open_exit now q i e
    submit_exit now q none e = elim (lookup q.symbol e.core.pm.positions) [
      | none ↦ (ok tt, e)
      | some pos ↦ open_exit now q (flatten q.symbol pos) e
    ]
