-- ===== src/Orders/Runs.antt =====
-- execution/order_manager.py: what holds after any sequence of calls.
use liquidity_bot.Prelude.{ℕ, ◌≤◌, ◌≡◌, refl, ◌∙◌, subst, List, [], ◌∷◌, All, Option, arith}
use liquidity_bot.Float.{Float, IsOrdered, lit, ◌≼◌}
use liquidity_bot.Models.{Symbol, Time, OrderRequest}
use liquidity_bot.Orders.{
  OrderManager, reserved_notional, active_entry_symbols, sum_notional, create,
}
use liquidity_bot.Orders.Steps.{
  mark_submitting-Follows, on_ack-Follows, on_reject-Follows, request_cancel-Follows,
  on_cancel_ack-Follows, on_fill-Follows, poll-Follows,
}
use liquidity_bot.Orders.Calls.{
  Call, creates, submits, acks, cancels, cancel_acks, rejects, fills, polls, call, run, empty,
  IsAdmissible,
}
use liquidity_bot.Orders.Invariant.{IsValid, Follows-IsValid, count}
use liquidity_bot.Orders.Creation.{create-IsValid}

module _ {F : Type 0} ⦃f : Float F⦄ (laws : IsOrdered F) where
  create-max :
      (now : Time) (req : OrderRequest F) (price risk : F) (ttl : Option ℕ) (latency : ℕ)
      (om : OrderManager F)
      → (create now req price risk ttl latency om).1.max_gross_notional ≡ om.max_gross_notional
  unfolding create
  create-max now req price risk ttl latency om = ground arith

  call-IsValid :
      (now : Time) (c : Call F) (om : OrderManager F)
      → IsAdmissible c
      → IsValid om
      → IsValid (call now c om)
  unfolding call
  call-IsValid now (creates req price risk ttl latency) om h v =
      create-IsValid laws now req price risk ttl latency om h.0 h.1 v
  call-IsValid now (submits k) om h v =
      Follows-IsValid laws om _ (mark_submitting-Follows laws now k om) v
  call-IsValid now (acks k) om h v = Follows-IsValid laws om _ (on_ack-Follows laws now k om) v
  call-IsValid now (cancels k) om h v =
      Follows-IsValid laws om _ (request_cancel-Follows laws now k om) v
  call-IsValid now (cancel_acks k) om h v =
      Follows-IsValid laws om _ (on_cancel_ack-Follows laws now k om) v
  call-IsValid now (rejects k reason) om h v =
      Follows-IsValid laws om _ (on_reject-Follows laws now k reason om) v
  call-IsValid now (fills fill) om h v =
      Follows-IsValid laws om _ (on_fill-Follows laws now fill om h) v
  call-IsValid now polls om h v = Follows-IsValid laws om _ (poll-Follows laws now om) v

  pub run-IsValid :
      (cs : List (Time × Call F)) (om : OrderManager F)
      → All (λ c. IsAdmissible c.1) cs
      → IsValid om
      → IsValid (run cs om)
  unfolding run
  run-IsValid [] om h v = v
  run-IsValid ((now, c) ∷ cs) om h v =
      run-IsValid cs (call now c om) h.1 (call-IsValid now c om h.0 v)

  call-max :
      (now : Time) (c : Call F) (om : OrderManager F)
      → IsAdmissible c
      → (call now c om).max_gross_notional ≡ om.max_gross_notional
  unfolding call
  call-max now (creates req price risk ttl latency) om h =
      create-max now req price risk ttl latency om
  call-max now (submits k) om h = (mark_submitting-Follows laws now k om).0
  call-max now (acks k) om h = (on_ack-Follows laws now k om).0
  call-max now (cancels k) om h = (request_cancel-Follows laws now k om).0
  call-max now (cancel_acks k) om h = (on_cancel_ack-Follows laws now k om).0
  call-max now (rejects k reason) om h = (on_reject-Follows laws now k reason om).0
  call-max now (fills fill) om h = (on_fill-Follows laws now fill om h).0
  call-max now polls om h = (poll-Follows laws now om).0

  run-max :
      (cs : List (Time × Call F)) (om : OrderManager F)
      → All (λ c. IsAdmissible c.1) cs
      → (run cs om).max_gross_notional ≡ om.max_gross_notional
  unfolding run
  run-max [] om h = refl
  run-max ((now, c) ∷ cs) om h = run-max cs (call now c om) h.1 ∙ call-max now c om h.0

  pub empty-IsValid : (most : F) → lit 0 ≼ most → IsValid (empty most)
  unfolding empty reserved_notional sum_notional active_entry_symbols
  empty-IsValid most h = record { sound = tt; within = h; single = λ s. omega arith }

  -- After any calls but `restore`, which only a start-up makes, from an empty order manager, with a limit,
  -- prices, risks and fill quantities that are not negative, the notional reserved by the orders that are not terminal is at most the limit.
  pub run-reserved_notional-le :
      (most : F) (cs : List (Time × Call F))
      → lit 0 ≼ most
      → All (λ c. IsAdmissible c.1) cs
      → reserved_notional (run cs (empty most)) ≼ most
  unfolding empty
  run-reserved_notional-le most cs h a =
      subst (λ x. reserved_notional (run cs (empty most)) ≼ x) (run-max cs (empty most) a)
        (run-IsValid cs (empty most) a (empty-IsValid most h)).within

  -- After any calls from an empty order manager, with a limit, prices, risks and fill quantities that are not
  -- negative, no symbol has two entry orders that are not terminal.
  pub run-single_entry :
      (most : F) (cs : List (Time × Call F)) (s : Symbol)
      → lit 0 ≼ most
      → All (λ c. IsAdmissible c.1) cs
      → count s (active_entry_symbols (run cs (empty most)).orders) ≤ 1
  run-single_entry most cs s h a = (run-IsValid cs (empty most) a (empty-IsValid most h)).single s
