-- ===== src/Orders/Fills.antt =====
-- execution/order_manager.py: `on_fill`, by the state that the fill finds the order in.
use liquidity_bot.Prelude.{
  ◌+◌, ◌||◌, ◌≡◌, refl, Bool, true, false, not, some, [], ◌∷◌, ◌++◌, arith, Bool-cases, inl, inr,
  lookup, lookup-insert_self, if◌then◌else◌,
}
use liquidity_bot.Float.{Float, ◌⊕◌, lit}
use liquidity_bot.Models.{Coid, Time, Fill}
use liquidity_bot.Orders.{
  OState, Event, terminal, legal, fill_complete, fill_partial, filled, partial, is_filled,
  is_partial, is_submitting, is_working, is_cancel_pending, illegal_transition, ManagedOrder,
  OrderManager, ok, err, moved, transition,
}
use liquidity_bot.Orders.Methods.{book_fill, is_complete, settle, on_fill}

-- Acknowledged or not, the venue may still fill it.
abbrev pub is_fillable : OState → Bool
is_fillable OState.new = false
is_fillable s = not (terminal s)

module _ {F : Type 0} ⦃f : Float F⦄ where
  transition-allowed :
      (now : Time) (k : Coid) (o : ManagedOrder F) (to : OState) (why : Event) (om : OrderManager F)
      → legal o.state to ≡ true
      → let (r, om') = transition now k o to why om in
        (r ≡ ok tt)
        × (lookup k om'.orders ≡ some (moved now to o))
        × (om'.ended ≡ (if terminal to then om.ended ++ (moved now to o ∷ []) else om.ended))
  unfolding transition
  transition-allowed now k o to why om h =
      rw h (refl, lookup-insert_self k (moved now to o) om.orders, refl)

  transition-refused :
      (now : Time) (k : Coid) (o : ManagedOrder F) (to : OState) (why : Event) (om : OrderManager F)
      → legal o.state to ≡ false
      → let (r, om') = transition now k o to why om in
        (r ≡ err (illegal_transition o.state to)) × (lookup k om'.orders ≡ some o)
  unfolding transition
  transition-refused now k o to why om h = rw h (refl, lookup-insert_self k o om.orders)

  -- A fill that completes an order which was cancelled, rejected or expired meanwhile is booked on
  -- the order, which keeps its state, but `on_fill` raises `IllegalTransition`.
  pub on_fill-late :
      (now : Time) (fill : Fill F) (om : OrderManager F) (o : ManagedOrder F)
      → lookup fill.client_order_id om.orders ≡ some o
      → terminal o.state ≡ true
      → is_filled o.state ≡ false
      → is_complete (book_fill fill o) ≡ true
      → ((on_fill now fill om).0 ≡ err (illegal_transition o.state filled))
        × (lookup fill.client_order_id (on_fill now fill om).1.orders ≡ some (book_fill fill o))
        × ((book_fill fill o).state ≡ o.state)
        × ((book_fill fill o).filled_qty ≡ o.filled_qty ⊕ fill.quantity)
  unfolding on_fill settle book_fill
  on_fill-late now fill om o e t u c =
      let k = fill.client_order_id in
      let (raised, stored) =
        transition-refused now k (book_fill fill o) filled fill_complete om (ground arith) in
      rw (e, c, u) (raised, stored, refl, refl)

  moved-filled :
      (now : Time) (o : ManagedOrder F)
      → let o' = moved now filled o in
        (o'.state ≡ filled)
        × (o'.reserved_risk_usd ≡ lit 0)
        × (o'.reserved_notional_usd ≡ lit 0)
        × (o'.filled_qty ≡ o.filled_qty)
        × ((moved now filled o).request ≡ o.request)
  unfolding moved
  moved-filled now o = (refl, refl, refl, refl, refl)

  -- A fill that completes an order which the venue may still fill does not raise: the order becomes
  -- filled with the fill's quantity added, nothing stays reserved for it, and `on_terminal` is called
  -- with it.
  pub on_fill-completes :
      (now : Time) (fill : Fill F) (om : OrderManager F) (o : ManagedOrder F)
      → lookup fill.client_order_id om.orders ≡ some o
      → is_fillable o.state ≡ true
      → is_complete (book_fill fill o) ≡ true
      → (o' : ManagedOrder F) × ((on_fill now fill om).0 ≡ ok tt)
        × (lookup fill.client_order_id (on_fill now fill om).1.orders ≡ some o')
        × ((on_fill now fill om).1.ended ≡ om.ended ++ (o' ∷ []))
        × (o'.state ≡ filled)
        × (o'.filled_qty ≡ o.filled_qty ⊕ fill.quantity)
        × (o'.reserved_risk_usd ≡ lit 0)
        × (o'.reserved_notional_usd ≡ lit 0)
        × (o'.request ≡ o.request)
  unfolding on_fill settle book_fill
  on_fill-completes now fill om o e h c =
      let k = fill.client_order_id in
      let b = book_fill fill o in
      let (done, stored, told) =
        transition-allowed now k b filled fill_complete om (ground arith) in
      let (state, risk, notional, qty, request) = moved-filled now b in
      let open_state : is_filled o.state ≡ false = ground arith in
      rw e (
        rw (c, open_state)
          (moved now filled b, done, stored, told, state, qty, risk, notional, request))

  moved-partial :
      (now : Time) (o : ManagedOrder F)
      → ((moved now partial o).state ≡ partial) × ((moved now partial o).request ≡ o.request)
  unfolding moved
  moved-partial now o = (refl, refl)

  -- A fill that leaves a rest of an order which the venue may still fill does not raise and calls no
  -- `on_terminal`: the order is partly filled afterwards, also where a cancel was pending.
  pub on_fill-partial :
      (now : Time) (fill : Fill F) (om : OrderManager F) (o : ManagedOrder F)
      → lookup fill.client_order_id om.orders ≡ some o
      → is_fillable o.state ≡ true
      → is_complete (book_fill fill o) ≡ false
      → (o' : ManagedOrder F) × ((on_fill now fill om).0 ≡ ok tt)
        × (lookup fill.client_order_id (on_fill now fill om).1.orders ≡ some o')
        × ((on_fill now fill om).1.ended ≡ om.ended)
        × (o'.state ≡ partial)
        × (o'.request ≡ o.request)
  unfolding on_fill settle book_fill
  on_fill-partial now fill om o e h c = elim (Bool-cases (is_partial o.state)) [
    | inl again ↦
        let k = fill.client_order_id in
        let o' = record (book_fill fill o) { revision = o.revision + 1 } in
        let live : (is_submitting o.state || is_working o.state || is_cancel_pending o.state)
            ≡ true =
          ground arith in
        let kept : o'.state ≡ partial = ground arith in
        rw e (rw (c, live, again) (o', refl, lookup-insert_self k o' om.orders, refl, kept, refl))
    | inr first ↦
        let k = fill.client_order_id in
        let b = book_fill fill o in
        let live : (is_submitting o.state || is_working o.state || is_cancel_pending o.state)
            ≡ true =
          ground arith in
        let (done, stored, told) =
          transition-allowed now k b partial fill_partial om (ground arith) in
        let (state, request) = moved-partial now b in
        rw e (rw (c, live, first) (moved now partial b, done, stored, told, state, request))
  ]
