-- ===== src/Orders/Methods.antt =====
-- execution/order_manager.py: the methods of `OrderManager` that act on an order.
use liquidity_bot.Prelude.{
  ℕ, ◌+◌, ◌^◌, Bool, true, false, ◌||◌, Option, none, some, List, [], ◌∷◌, ◌++◌, leb, if◌then◌else◌,
  lookup, insert, keys,
}
use liquidity_bot.Float.{Float, ◌⊕◌, ◌⊗◌, ◌⊘◌, lit, ratio, le, lt, max}
use liquidity_bot.Models.{Coid, Time, Fill}
use liquidity_bot.Orders.{
  submitting, acknowledged, partial, filled, cancel_pending, cancelled, rejected, expired, terminal,
  is_submitting, is_partial, is_filled, is_cancel_pending, is_working, submit_sent, venue_ack,
  fill_complete, fill_partial, cancel_requested, cancel_ack, ttl_expired, ttl_no_ack, reject, ok,
  err, key_error, ManagedOrder, OrderManager, Outcome, remaining, transition,
}

-- what a method does by whether its `orders.get(coid)` finds an order
abbrev pub found {ℓ κ} : {O : Type ℓ} {A : Type κ} → Option O → A → (O → A) → A
found none absent present = absent
found (some o) absent present = present o

module _ {F : Type 0} ⦃f : Float F⦄ where
  -- a method that goes on after a transition to return `a`
  unfoldable pub answer : {A : Type 0} → A → Outcome F (Unit {0}) → Outcome F A
  answer a (ok _, om) = (ok a, om)
  answer a (err e, om) = (err e, om)

  -- `self.orders[coid]`, and then a transition
  unfoldable pub mark_submitting : Time → Coid → OrderManager F → Outcome F (Unit {0})
  mark_submitting now k om =
      found (lookup k om.orders) (err key_error, om)
        λ o. transition now k o submitting submit_sent om

  unfoldable pub on_ack : Time → Coid → OrderManager F → Outcome F (Unit {0})
  on_ack now k om =
      found (lookup k om.orders) (ok tt, om)
        λ o.
          if is_submitting o.state
          then transition now k o acknowledged venue_ack om
          else (ok tt, om)

  unfoldable pub on_reject : Time → Coid → ℕ → OrderManager F → Outcome F (Unit {0})
  on_reject now k reason om =
      found (lookup k om.orders) (ok tt, om)
        λ o.
          if terminal o.state then (ok tt, om) else transition now k o rejected (reject reason) om

  unfoldable pub average_price : Fill F → ManagedOrder F → F
  unfolding max
  average_price fill o =
      (o.avg_fill_price ⊗ o.filled_qty ⊕ fill.price ⊗ fill.quantity)
      ⊘ max (o.filled_qty ⊕ fill.quantity) (ratio 1 (10 ^ 12))

  -- the factor of `on_fill` by which both reservations shrink
  unfoldable pub kept_share : ManagedOrder F → F
  unfolding remaining max
  kept_share o =
      let frac_remaining = remaining o ⊘ max o.request.quantity (ratio 1 (10 ^ 12)) in
      if lt (lit 0) (remaining o) then frac_remaining else lit 0

  -- what `on_fill` writes to the order before any transition
  unfoldable pub book_fill : Fill F → ManagedOrder F → ManagedOrder F
  book_fill fill o =
      let o₁ = record o {
        avg_fill_price = average_price fill o;
        filled_qty = o.filled_qty ⊕ fill.quantity;
      } in
      record o₁ {
        reserved_risk_usd = o.reserved_risk_usd ⊗ kept_share o₁;
        reserved_notional_usd = o.reserved_notional_usd ⊗ kept_share o₁;
      }

  -- `remaining <= 1e-9`
  abbrev pub is_complete : ManagedOrder F → Bool
  is_complete o = le (remaining o) (ratio 1 (10 ^ 9))

  -- the branches of `on_fill` after the fill has been booked in `o`
  unfoldable pub settle : Time → Coid → ManagedOrder F → OrderManager F → Outcome F (Unit {0})
  settle now k o om =
      let booked = record om { orders = insert k o om.orders } in
      if is_complete o
      then if is_filled o.state then (ok tt, booked) else transition now k o filled fill_complete om
      else if is_submitting o.state || is_working o.state || is_cancel_pending o.state
      then if is_partial o.state
        then (
          ok tt,
          record om { orders = insert k (record o { revision = o.revision + 1 }) om.orders },
        )
        else transition now k o partial fill_partial om
      else (ok tt, booked)

  -- The order that `on_fill` returns is the one stored at the fill's id.
  unfoldable pub on_fill : Time → Fill F → OrderManager F → Outcome F (Unit {0})
  on_fill now fill om =
      found (lookup fill.client_order_id om.orders) (err key_error, om)
        λ o. settle now fill.client_order_id (book_fill fill o) om

  unfoldable pub request_cancel : Time → Coid → OrderManager F → Outcome F Bool
  request_cancel now k om =
      found (lookup k om.orders) (ok false, om)
        λ o.
          if is_working o.state
          then answer true (transition now k o cancel_pending cancel_requested om)
          else (ok false, om)

  unfoldable pub on_cancel_ack : Time → Coid → OrderManager F → Outcome F (Unit {0})
  on_cancel_ack now k om =
      found (lookup k om.orders) (ok tt, om)
        λ o.
          if is_cancel_pending o.state
          then transition now k o cancelled cancel_ack om
          else (ok tt, om)

  -- `o.expire_at and now >= o.expire_at`
  abbrev pub is_due : Time → ManagedOrder F → Bool
  is_due now o = elim o.expire_at [ none ↦ false | some t ↦ leb t now ]

  -- the body of the loop of `poll`
  unfoldable pub sweep_order : Time → Coid → ManagedOrder F → OrderManager F → Outcome F (List Coid)
  sweep_order now k o om =
      if terminal o.state
      then (ok [], om)
      else if is_due now o
      then if is_working o.state
        then answer (o.request.client_order_id ∷ [])
            (transition now k o cancel_pending ttl_expired om)
        else if is_submitting o.state
        then answer [] (transition now k o expired ttl_no_ack om)
        else (ok [], om)
      else (ok [], om)

  -- that body, for the order stored at `k`
  unfoldable pub sweep : Time → Coid → OrderManager F → Outcome F (List Coid)
  unfolding sweep_order
  sweep now k om = found (lookup k om.orders) (ok [], om) λ o. sweep_order now k o om

  -- the coids found so far, then those of the rest of the loop
  unfoldable pub prepend : List Coid → Outcome F (List Coid) → Outcome F (List Coid)
  prepend cs (ok ds, om) = (ok (cs ++ ds), om)
  prepend cs (err e, om) = (err e, om)

  unfoldable pub go_on :
      Outcome F (List Coid) → (OrderManager F → Outcome F (List Coid)) → Outcome F (List Coid)
  unfolding prepend
  go_on (ok cs, om) rest = prepend cs (rest om)
  go_on (err e, om) rest = (err e, om)

  unfoldable pub poll_keys : Time → List Coid → OrderManager F → Outcome F (List Coid)
  unfolding go_on
  poll_keys now [] om = (ok [], om)
  poll_keys now (k ∷ ks) om = go_on (sweep now k om) (poll_keys now ks)

  unfoldable pub poll : Time → OrderManager F → Outcome F (List Coid)
  unfolding poll_keys
  poll now om = poll_keys now (keys om.orders) om

  unfoldable pub restore : ManagedOrder F → OrderManager F → OrderManager F
  restore o om = record om { orders = insert o.request.client_order_id o om.orders }
