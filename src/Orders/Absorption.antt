-- ===== src/Orders/Absorption.antt =====
-- execution/order_manager.py: an order that has ended stays as it ended, whatever is called later.
use liquidity_bot.Prelude.{
  ℕ, ◌≡◌, ◌≢◌, ap, ◌∙◌, inl, inr, true, false, ◌&&◌, Option, some, List, [], ◌∷◌, arith, Bool-cases,
  if_cases, All, Dict, lookup, has_key, lookup-insert_ne, ◌==◌,
}
use liquidity_bot.Float.{Float, IsOrdered, ◌⊕◌, ◌⊗◌, lit, lt, ◌≼◌, abs}
use liquidity_bot.Models.{Coid, Time, OrderRequest, is_entry_intent}
use liquidity_bot.Orders.{
  terminal, ManagedOrder, OrderManager, Outcome, reserved_notional, has_active_entry, new_order,
  create,
}
use liquidity_bot.Orders.Evolution.{
  IsSound, Advances, Advances-refl, Advances-trans, Evolves, Follows,
}
use liquidity_bot.Orders.Methods.{
  mark_submitting, on_ack, on_reject, request_cancel, on_cancel_ack, on_fill, poll,
}
use liquidity_bot.Orders.Steps.{
  mark_submitting-Follows, on_ack-Follows, on_reject-Follows, request_cancel-Follows,
  on_cancel_ack-Follows, on_fill-Follows, poll-Follows,
}
use liquidity_bot.Orders.Calls.{
  Call, creates, submits, acks, cancels, cancel_acks, rejects, fills, polls, call, run, empty,
  IsAdmissible,
}
use liquidity_bot.Orders.Invariant.{AllSound}
use liquidity_bot.Orders.Runs.{run-IsValid, empty-IsValid}

module _ {F : Type 0} ⦃f : Float F⦄ where
  -- the order under `k`, as some calls have left the order `o` that was there
  abbrev Stored : Coid → ManagedOrder F → OrderManager F → Type 0
  Stored k o om = (o' : ManagedOrder F) × (lookup k om.orders ≡ some o') × Advances o o'

  lookup-Evolves :
      (k : Coid) (o : ManagedOrder F) (d d' : Dict (ManagedOrder F))
      → Evolves d d'
      → lookup k d ≡ some o
      → (o' : ManagedOrder F) × (lookup k d' ≡ some o') × Advances o o'
  lookup-Evolves k o [] [] h e = cc
  lookup-Evolves k o ((j, p) ∷ d) ((j', p') ∷ d') (same, a, h) e = elim (Bool-cases (k == j)) [
    | inl hit ↦ (p', rw (same, hit), ground arith)
    | inr miss ↦ rw (same, miss) (lookup-Evolves k o d d' h (ground arith))
  ]
  lookup-Evolves k o [] (_ ∷ _) h e = absurd h
  lookup-Evolves k o (_ ∷ _) [] h e = absurd h

  lookup-AllSound :
      (k : Coid) (o : ManagedOrder F) (d : Dict (ManagedOrder F))
      → AllSound d
      → lookup k d ≡ some o
      → IsSound o
  lookup-AllSound k o [] s e = cc
  lookup-AllSound k o ((j, p) ∷ d) s e = ground (arith, lookup-AllSound k o d s.1)

  -- A key that finds an order is not the new key of `create`.
  create-lookup :
      (k : Coid) (o : ManagedOrder F) (now : Time) (req : OrderRequest F) (price risk : F)
      (ttl : Option ℕ) (latency : ℕ) (om : OrderManager F)
      → lookup k om.orders ≡ some o
      → lookup k (create now req price risk ttl latency om).1.orders ≡ some o
  unfolding create
  create-lookup k o now req price risk ttl latency om e =
      if_cases kept (has_key req.client_order_id om.orders) _ _ (λ _. e)
        λ fresh.
          if_cases kept (is_entry_intent req.intent && has_active_entry req.symbol om.orders) _ _
            (λ _. e)
            λ _.
              let notional = abs req.quantity ⊗ price in
              if_cases kept (lt om.max_gross_notional (reserved_notional om ⊕ notional)) _ _
                (λ _. e)
                λ _.
                  let o' = new_order now req risk notional ttl latency in
                  lookup-insert_ne k req.client_order_id o' om.orders (other fresh) ∙ e
    where
      kept : Outcome F (ManagedOrder F) → Type 0
      kept r = lookup k r.1.orders ≡ some o

      other : has_key req.client_order_id om.orders ≡ false → k ≢ req.client_order_id
      other fresh same = ground arith

  module _ (laws : IsOrdered F) where
    Follows-Stored :
        (k : Coid) (o : ManagedOrder F) (om om' : OrderManager F)
        → lookup k om.orders ≡ some o
        → Follows om om'
        → Stored k o om'
    Follows-Stored k o om om' e h = lookup-Evolves k o om.orders om'.orders h.1 e

    call-Stored :
        (k : Coid) (o : ManagedOrder F) (now : Time) (c : Call F) (om : OrderManager F)
        → IsAdmissible c
        → lookup k om.orders ≡ some o
        → Stored k o (call now c om)
    unfolding call
    call-Stored k o now (creates req price risk ttl latency) om h e =
        (o, create-lookup k o now req price risk ttl latency om e, Advances-refl laws o)
    call-Stored k o now (submits j) om h e =
        Follows-Stored k o om (mark_submitting now j om).1 e (mark_submitting-Follows laws now j om)
    call-Stored k o now (acks j) om h e =
        Follows-Stored k o om (on_ack now j om).1 e (on_ack-Follows laws now j om)
    call-Stored k o now (cancels j) om h e =
        Follows-Stored k o om (request_cancel now j om).1 e (request_cancel-Follows laws now j om)
    call-Stored k o now (cancel_acks j) om h e =
        Follows-Stored k o om (on_cancel_ack now j om).1 e (on_cancel_ack-Follows laws now j om)
    call-Stored k o now (rejects j reason) om h e =
        Follows-Stored k o om (on_reject now j reason om).1 e
          (on_reject-Follows laws now j reason om)
    call-Stored k o now (fills fill) om h e =
        Follows-Stored k o om (on_fill now fill om).1 e (on_fill-Follows laws now fill om h)
    call-Stored k o now polls om h e =
        Follows-Stored k o om (poll now om).1 e (poll-Follows laws now om)

    run-Stored :
        (k : Coid) (o : ManagedOrder F) (cs : List (Time × Call F)) (om : OrderManager F)
        → All (λ c. IsAdmissible c.1) cs
        → lookup k om.orders ≡ some o
        → Stored k o (run cs om)
    unfolding run
    run-Stored k o [] om h e = (o, e, Advances-refl laws o)
    run-Stored k o ((now, c) ∷ cs) om h e =
        let (p, found, a) = call-Stored k o now c om h.0 e in
        let (q, later, b) = run-Stored k p cs (call now c om) h.1 found in
        (q, later, Advances-trans laws o p q a b)

    -- Suppose that after some calls from an empty order manager an order is in a terminal state. The
    -- calls are all but `restore`, which only a start-up makes and which overwrites the key.
    -- After any further calls the same key finds an order with the same request in the same state,
    -- and nothing is reserved for it. Prices, risks and fill quantities are not negative.
    pub run_ended :
        (most : F) (before after : List (Time × Call F)) (k : Coid) (o : ManagedOrder F)
        → lit 0 ≼ most
        → All (λ c. IsAdmissible c.1) before
        → All (λ c. IsAdmissible c.1) after
        → lookup k (run before (empty most)).orders ≡ some o
        → terminal o.state ≡ true
        → (o' : ManagedOrder F) × (lookup k (run after (run before (empty most))).orders ≡ some o')
          × (o'.request ≡ o.request)
          × (o'.state ≡ o.state)
          × (o'.reserved_notional_usd ≡ lit 0)
          × (o'.reserved_risk_usd ≡ lit 0)
    run_ended most before after k o h hb ha e t =
        let reached = run before (empty most) in
        let (o', found, a) = run-Stored k o after reached ha e in
        let valid = run-IsValid laws before (empty most) hb (empty-IsValid laws most h) in
        let s = a.sound (lookup-AllSound k o reached.orders valid.sound e) in
        let same = a.absorbed t in
        let still : terminal o'.state ≡ true = ap terminal same ∙ t in
        (o', found, a.same_request, same, s.notional_freed still, s.risk_freed still)
