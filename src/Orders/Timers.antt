-- ===== src/Orders/Timers.antt =====
-- execution/order_manager.py: the timer sweep `poll`, which needs no market data.
use liquidity_bot.Prelude.{
  ◌≡◌, ◌≢◌, refl, ◌⊎◌, inl, inr, Bool, true, false, ◌&&◌, ◌||◌, some, List, [], ◌∷◌, ◌++◌, arith,
  Bool-cases, Option-cases, if_cases, Dict, lookup, keys, contains, lookup-insert_self,
  lookup-insert_ne, ◌==◌, ==_iff,
}
use liquidity_bot.Float.{Float}
use liquidity_bot.Models.{Coid, Time}
use liquidity_bot.Orders.{
  OState, Event, terminal, legal, is_working, is_submitting, cancel_pending, expired, ManagedOrder,
  OrderManager, Outcome, moved, transition, ok, err,
}
use liquidity_bot.Orders.Methods.{
  answer, found, is_due, sweep, sweep_order, prepend, go_on, poll_keys, poll,
}

module _ {F : Type 0} ⦃f : Float F⦄ where
  -- An order past its deadline that the venue may still fill and that nobody has cancelled.
  abbrev pub is_overdue : Time → ManagedOrder F → Bool
  is_overdue now o = is_due now o && (is_working o.state || is_submitting o.state)

  abbrev pub has_overdue : Time → Coid → OrderManager F → Bool
  has_overdue now k om = found (lookup k om.orders) false (is_overdue now)

  abbrev Clears : Time → Coid → Outcome F (List Coid) → Type 0
  Clears now k r = has_overdue now k r.1 ≡ false

  abbrev Returns : {A : Type 0} → Outcome F A → Type 0
  Returns {A} r = (a : A) × (r.0 ≡ ok a)

  moved-quiet :
      (now : Time) (to : OState) (o : ManagedOrder F)
      → (is_working to || is_submitting to) ≡ false
      → is_overdue now (moved now to o) ≡ false
  unfolding moved
  moved-quiet now to o quiet = elim (Bool-cases (terminal to)) [
    | inl ends ↦ rw ends (ground arith)
    | inr lives ↦ rw lives (ground arith)
  ]

  -- The two transitions of the sweep are legal and leave a state that no timer ends.
  ended-Clears :
      (now : Time) (k : Coid) (o : ManagedOrder F) (to : OState) (why : Event) (cs : List Coid)
      (om : OrderManager F)
      → legal o.state to ≡ true
      → (is_working to || is_submitting to) ≡ false
      → Clears now k (answer cs (transition now k o to why om))
        × Returns (answer cs (transition now k o to why om))
  unfolding transition answer moved
  ended-Clears now k o to why cs om allowed quiet =
      let stored = lookup-insert_self k (moved now to o) om.orders in
      rw allowed (rw stored (moved-quiet now to o quiet), (cs, refl))

  sweep-Clears :
      (now : Time) (k : Coid) (om : OrderManager F)
      → Clears now k (sweep now k om) × Returns (sweep now k om)
  unfolding sweep
  sweep-Clears now k om = elim (Option-cases (lookup k om.orders)) [
    | inl absent ↦ rw absent (rw absent, ([], refl))
    | inr (o, e) ↦ rw e (stored o e)
  ]
    where
      good : Outcome F (List Coid) → Type 0
      good r = Clears now k r × Returns r

      unchanged :
          (o : ManagedOrder F)
          → lookup k om.orders ≡ some o
          → is_overdue now o ≡ false
          → good (ok [], om)
      unchanged o e quiet = (rw e quiet, ([], refl))

      stored : (o : ManagedOrder F) → lookup k om.orders ≡ some o → good (sweep_order now k o om)
      stored o e =
          if_cases good (terminal o.state) _ _ (λ ended. unchanged o e (ground arith))
            λ _.
              if_cases good (is_due now o) _ _
                (λ due.
                  if_cases good (is_working o.state) _ _
                    (λ working. ended-Clears now k o cancel_pending _ _ om (ground arith) refl)
                    (λ idle.
                      if_cases good (is_submitting o.state) _ _
                        (λ waiting. ended-Clears now k o expired _ _ om (ground arith) refl)
                        (λ other. unchanged o e (ground arith))))
                (λ early. unchanged o e (ground arith))

  sweep-other :
      (now : Time) (j k : Coid) (om : OrderManager F)
      → k ≢ j
      → lookup k (sweep now j om).1.orders ≡ lookup k om.orders
  unfolding sweep sweep_order transition answer
  sweep-other now j k om h = elim (Option-cases (lookup j om.orders)) [
    | inl absent ↦ rw absent
    | inr (o, e) ↦ rw e (
        ground (
          arith,
          lookup-insert_ne k j (moved now cancel_pending o) om.orders h,
          lookup-insert_ne k j (moved now expired o) om.orders h,
          lookup-insert_ne k j o om.orders h,
        ))
  ]

  go_on-Clears :
      (now : Time) (k : Coid) (r : Outcome F (List Coid))
      (rest : OrderManager F → Outcome F (List Coid))
      → Returns r
      → Clears now k (rest r.1) × Returns (rest r.1)
      → Clears now k (go_on r rest) × Returns (go_on r rest)
  unfolding go_on
  go_on-Clears now k (ok cs, om) rest h later = prepended cs (rest om) later
    where
      prepended :
          (cs : List Coid) (r : Outcome F (List Coid))
          → Clears now k r × Returns r
          → Clears now k (prepend cs r) × Returns (prepend cs r)
      prepended cs (ok ds, om') later = (later.0, (cs ++ ds, refl))
      prepended cs (err e, om') later = cc later.1.1
  go_on-Clears now k (err e, om) rest h later = cc h.1

  poll_keys-Clears :
      (now : Time) (k : Coid) (ks : List Coid) (om : OrderManager F)
      → (contains k ks ≡ true) ⊎ (has_overdue now k om ≡ false)
      → Clears now k (poll_keys now ks om) × Returns (poll_keys now ks om)
  unfolding poll_keys go_on prepend
  poll_keys-Clears now k [] om (inl h) = cc
  poll_keys-Clears now k [] om (inr h) = (h, ([], refl))
  poll_keys-Clears now k (j ∷ ks) om h =
      let (clear, returned) = sweep-Clears now j om in
      go_on-Clears now k (sweep now j om) (poll_keys now ks) returned
        (poll_keys-Clears now k ks (sweep now j om).1 (later h (Bool-cases (k == j)) clear))
    where
      later :
          (contains k (j ∷ ks) ≡ true) ⊎ (has_overdue now k om ≡ false)
          → ((k == j) ≡ true) ⊎ ((k == j) ≡ false)
          → Clears now j (sweep now j om)
          → (contains k ks ≡ true) ⊎ (has_overdue now k (sweep now j om).1 ≡ false)
      later h (inl same) clear = inr (rw ((==_iff k j).0 same) clear)
      later (inl listed) (inr other) clear = inl (ground arith)
      later (inr quiet) (inr other) clear =
          inr (rw (sweep-other now j k om λ e. ground (arith, (==_iff k j).1 e)) quiet)

  listed_or_quiet :
      (now : Time) (k : Coid) (d : Dict (ManagedOrder F))
      → (contains k (keys d) ≡ true) ⊎ (found (lookup k d) false (is_overdue now) ≡ false)
  listed_or_quiet now k [] = inr refl
  listed_or_quiet now k ((j, o) ∷ d) = elim (Bool-cases (k == j)) [
    | inl same ↦ inl (rw same refl)
    | inr other ↦ rw other (listed_or_quiet now k d)
  ]

  -- `poll` never raises, and after it no order that is acknowledged, partly filled or still being
  -- submitted is past its deadline, whatever the market data were.
  pub poll-clears :
      (now : Time) (om : OrderManager F)
      → ((cs : List Coid) × ((poll now om).0 ≡ ok cs))
        × ((k : Coid) → has_overdue now k (poll now om).1 ≡ false)
  unfolding poll
  poll-clears now om = (
    (poll_keys-Clears now 0 (keys om.orders) om (listed_or_quiet now 0 om.orders)).1,
    λ k. (poll_keys-Clears now k (keys om.orders) om (listed_or_quiet now k om.orders)).0,
  )
