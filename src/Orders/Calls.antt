-- ===== src/Orders/Calls.antt =====
-- execution/order_manager.py: a sequence of calls of the order manager's methods, made by the
-- session, the venue and the timer in any order. A call that raises leaves what it wrote. `restore` is
-- not among them: only the start-up of the engine calls it, before any other call.
use liquidity_bot.Prelude.{ℕ, Option, List, [], ◌∷◌}
use liquidity_bot.Float.{Float, lit, ◌≼◌}
use liquidity_bot.Models.{Coid, Time, OrderRequest, Fill}
use liquidity_bot.Orders.{OrderManager, create}
use liquidity_bot.Orders.Methods.{
  mark_submitting, on_ack, on_reject, on_fill, request_cancel, on_cancel_ack, poll,
}

pub data Call (F : Type 0) : Type 0 where
  creates : OrderRequest F → F → F → Option ℕ → ℕ → Call F
  submits acks cancels cancel_acks : Coid → Call F
  rejects : Coid → ℕ → Call F
  fills : Fill F → Call F
  polls : Call F

module _ {F : Type 0} ⦃f : Float F⦄ where
  unfoldable pub call : Time → Call F → OrderManager F → OrderManager F
  call now (creates req price risk ttl latency) om = (create now req price risk ttl latency om).1
  call now (submits k) om = (mark_submitting now k om).1
  call now (acks k) om = (on_ack now k om).1
  call now (cancels k) om = (request_cancel now k om).1
  call now (cancel_acks k) om = (on_cancel_ack now k om).1
  call now (rejects k reason) om = (on_reject now k reason om).1
  call now (fills fill) om = (on_fill now fill om).1
  call now polls om = (poll now om).1

  unfoldable pub run : List (Time × Call F) → OrderManager F → OrderManager F
  unfolding call
  run [] om = om
  run ((now, c) ∷ cs) om = run cs (call now c om)

  unfoldable pub empty : F → OrderManager F
  empty most = record { max_gross_notional = most; orders = []; journal = []; ended = [] }

  -- Prices, risks and fill quantities are not negative.
  abbrev pub IsAdmissible : Call F → Type 0
  IsAdmissible (creates req price risk ttl latency) = (lit 0 ≼ price) × (lit 0 ≼ risk)
  IsAdmissible (fills fill) = lit 0 ≼ fill.quantity
  IsAdmissible _ = Unit
