-- ===== src/Orders/Steps.antt =====
-- execution/order_manager.py: every method but `create` and `restore` lets the orders evolve.
use liquidity_bot.Prelude.{
  ℕ, ◌≡◌, refl, ◌∙◌, Bool, true, false, ◌||◌, Option, none, some, List, [], ◌∷◌, arith,
  if◌then◌else◌, lookup, insert, keys,
}
use liquidity_bot.Float.{Float, IsOrdered, lit, ◌≼◌}
use liquidity_bot.Models.{Coid, Time, Fill}
use liquidity_bot.Orders.{
  OState, Event, terminal, is_submitting, is_partial, is_filled, is_cancel_pending, is_working,
  submitting, acknowledged, filled, partial, rejected, cancelled, ManagedOrder, OrderManager,
  Outcome, transition, ok, err,
}
use liquidity_bot.Orders.Methods.{
  answer, mark_submitting, on_ack, on_reject, settle, is_complete, on_fill, request_cancel,
  on_cancel_ack, is_due, sweep, prepend, found, go_on, poll_keys, poll,
}
use liquidity_bot.Orders.Evolution.{
  Advances, Follows, Follows-refl, Evolves-trans, Advances-refl, transition-Follows, answer-same,
  insert-Evolves, book_fill-Advances, repeat-Advances,
}

module _ {F : Type 0} ⦃f : Float F⦄ (laws : IsOrdered F) where
  -- A test decides between two outcomes that both let the orders evolve.
  either-Follows :
      {A : Type 0} (om : OrderManager F) (b : Bool) (x y : Outcome F A)
      → Follows om x.1
      → Follows om y.1
      → Follows om (if b then x else y).1
  either-Follows d true x y h k = h
  either-Follows d false x y h k = k

  found-Follows :
      {A : Type 0} (om : OrderManager F) (m : Option (ManagedOrder F)) (x : Outcome F A)
      (g : ManagedOrder F → Outcome F A)
      → Follows om x.1
      → ((o : ManagedOrder F) → m ≡ some o → Follows om (g o).1)
      → Follows om (found m x g).1
  found-Follows d none x g h k = h
  found-Follows d (some o) x g h k = k o refl

  stored-Follows :
      (now : Time) (k : Coid) (o : ManagedOrder F) (to : OState) (why : Event) (om : OrderManager F)
      → lookup k om.orders ≡ some o
      → Follows om (transition now k o to why om).1
  stored-Follows now k o to why om e =
      transition-Follows laws now k o o to why om e (Advances-refl laws o)

  answer-Follows :
      {A : Type 0} (a : A) (om : OrderManager F) (r : Outcome F (Unit {0}))
      → Follows om r.1
      → Follows om (answer a r).1
  answer-Follows a d r h = rw (answer-same laws a r) h

  pub mark_submitting-Follows :
      (now : Time) (k : Coid) (om : OrderManager F) → Follows om (mark_submitting now k om).1
  unfolding mark_submitting
  mark_submitting-Follows now k om =
      found-Follows om (lookup k om.orders) _ _ (Follows-refl laws om)
        λ o e. (stored-Follows now k o submitting _ om e)

  pub on_ack-Follows :
      (now : Time) (k : Coid) (om : OrderManager F) → Follows om (on_ack now k om).1
  unfolding on_ack
  on_ack-Follows now k om = found-Follows om (lookup k om.orders) _ _ (Follows-refl laws om) λ o e.
      (either-Follows om (is_submitting o.state) _ _ (stored-Follows now k o acknowledged _ om e)
        (Follows-refl laws om))

  pub on_reject-Follows :
      (now : Time) (k : Coid) (reason : ℕ) (om : OrderManager F)
      → Follows om (on_reject now k reason om).1
  unfolding on_reject
  on_reject-Follows now k reason om =
      found-Follows om (lookup k om.orders) _ _ (Follows-refl laws om) λ o e.
        (either-Follows om (terminal o.state) _ _ (Follows-refl laws om)
          (stored-Follows now k o rejected _ om e))

  pub request_cancel-Follows :
      (now : Time) (k : Coid) (om : OrderManager F) → Follows om (request_cancel now k om).1
  unfolding request_cancel
  request_cancel-Follows now k om =
      found-Follows om (lookup k om.orders) _ _ (Follows-refl laws om) λ o e.
        (either-Follows om (is_working o.state) _ _
          (answer-Follows true om _ (stored-Follows now k o _ _ om e)) (Follows-refl laws om))

  pub on_cancel_ack-Follows :
      (now : Time) (k : Coid) (om : OrderManager F) → Follows om (on_cancel_ack now k om).1
  unfolding on_cancel_ack
  on_cancel_ack-Follows now k om =
      found-Follows om (lookup k om.orders) _ _ (Follows-refl laws om) λ o e.
        (either-Follows om (is_cancel_pending o.state) _ _ (stored-Follows now k o cancelled _ om e)
          (Follows-refl laws om))

  settle-Follows :
      (now : Time) (k : Coid) (p o : ManagedOrder F) (om : OrderManager F)
      → lookup k om.orders ≡ some p
      → Advances p o
      → Follows om (settle now k o om).1
  unfolding settle
  settle-Follows now k p o om e h =
      let stored : Follows om (record om { orders = insert k o om.orders }) =
        (refl, insert-Evolves laws k p o om.orders e h) in
      either-Follows om (is_complete o) _ _
        (either-Follows om (is_filled o.state) _ _ stored
          (transition-Follows laws now k p o filled _ om e h))
        (either-Follows om
          (is_submitting o.state || is_working o.state || is_cancel_pending o.state) _ _
          (either-Follows om (is_partial o.state) _ _
            (refl, insert-Evolves laws k p _ om.orders e (repeat-Advances laws p o h))
            (transition-Follows laws now k p o partial _ om e h))
          stored)

  pub on_fill-Follows :
      (now : Time) (fill : Fill F) (om : OrderManager F)
      → lit 0 ≼ fill.quantity
      → Follows om (on_fill now fill om).1
  unfolding on_fill
  on_fill-Follows now fill om h =
      found-Follows om (lookup fill.client_order_id om.orders) _ _ (Follows-refl laws om)
        λ o e. (settle-Follows now fill.client_order_id o _ om e (book_fill-Advances laws fill o h))

  sweep-Follows : (now : Time) (k : Coid) (om : OrderManager F) → Follows om (sweep now k om).1
  unfolding sweep
  sweep-Follows now k om = found-Follows om (lookup k om.orders) _ _ (Follows-refl laws om) λ o e.
      let same : Follows om om = Follows-refl laws om in
      (either-Follows om (terminal o.state) _ _ same (
        either-Follows om (is_due now o) _ _
          (either-Follows om (is_working o.state) _ _
            (answer-Follows _ om _ (stored-Follows now k o _ _ om e))
            (either-Follows om (is_submitting o.state) _ _
              (answer-Follows _ om _ (stored-Follows now k o _ _ om e)) same))
          same))

  prepend-same : (cs : List Coid) (r : Outcome F (List Coid)) → (prepend cs r).1 ≡ r.1
  unfolding prepend
  prepend-same cs r = ground arith

  go_on-Follows :
      (om : OrderManager F) (r : Outcome F (List Coid))
      (rest : OrderManager F → Outcome F (List Coid))
      → Follows om r.1
      → ((om : OrderManager F) → Follows om (rest om).1)
      → Follows om (go_on r rest).1
  unfolding go_on
  go_on-Follows d (ok cs, om) rest h k =
      let (cap, later) = k om in
      rw (prepend-same cs (rest om)) (cap ∙ h.0, Evolves-trans laws _ _ _ h.1 later)
  go_on-Follows d (err e, om) rest h k = h

  poll_keys-Follows :
      (now : Time) (ks : List Coid) (om : OrderManager F) → Follows om (poll_keys now ks om).1
  unfolding poll_keys
  poll_keys-Follows now [] om = Follows-refl laws om
  poll_keys-Follows now (k ∷ ks) om =
      go_on-Follows om (sweep now k om) (poll_keys now ks) (sweep-Follows now k om)
        (poll_keys-Follows now ks)

  pub poll-Follows : (now : Time) (om : OrderManager F) → Follows om (poll now om).1
  unfolding poll
  poll-Follows now om = poll_keys-Follows now (keys om.orders) om
