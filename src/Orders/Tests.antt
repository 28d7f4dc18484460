-- ===== src/Orders/Tests.antt =====
-- Runs of the order manager, and the properties at them.
use liquidity_bot.Prelude.{ℕ, ◌≡◌, refl, false, some, List, [], ◌∷◌, ◌++◌, lookup}
use liquidity_bot.Float.{◌≼◌, ◌⊕◌}
use liquidity_bot.Float.Fixed.{ℤ, num, fixed, fixed-IsOrdered}
use liquidity_bot.Models.{Time}
use liquidity_bot.Orders.{
  ManagedOrder, OrderManager, OState, reserved_notional, has_active_entry, create, new_order,
  transition, moved, remaining, err, ok, illegal_transition, filled, cancelled,
}
use liquidity_bot.Orders.Methods.{
  mark_submitting, on_ack, book_fill, kept_share, average_price, settle, on_fill, request_cancel,
  on_cancel_ack, answer, sweep, poll,
}
use liquidity_bot.Orders.Calls.{
  Call, creates, submits, acks, cancels, cancel_acks, fills, run, empty,
}
use liquidity_bot.Orders.Runs.{run-reserved_notional-le}
use liquidity_bot.Orders.Absorption.{run_ended}
use liquidity_bot.Orders.Timers.{poll-clears, has_overdue}
use liquidity_bot.Orders.Fills.{on_fill-late, on_fill-completes}
use liquidity_bot.Orders.Samples.{request, fill, half}

abbrev most : ℤ
most = num 5000 1

-- an order for 100 shares at 10, of which 50 and then 25 are filled
abbrev working : List (Time × Call ℤ)
working =
    (0, creates request (num 10 1) (num 20 1) (some 1000) 0)
    ∷ (10, submits 7)
    ∷ (20, acks 7)
    ∷ (30, fills (fill 50))
    ∷ []

abbrev later : List (Time × Call ℤ)
later = (40, fills (fill 25)) ∷ []

-- the same order cancelled after its first fill
abbrev cancelling : List (Time × Call ℤ)
cancelling = working ++ ((60, cancels 7) ∷ (70, cancel_acks 7) ∷ [])

-- opened with all that the runs compute with
after : List (Time × Call ℤ) → OrderManager ℤ
unfolding run create new_order mark_submitting on_ack on_fill settle book_fill average_price
    kept_share transition moved remaining reserved_notional empty request_cancel on_cancel_ack
    answer poll has_active_entry sweep
after cs = run cs (empty most)

half_kept : reserved_notional (after working) ≡ num 500 1
unfolding after
half_kept = refl

-- A quarter of the shares is left, and an eighth of the reservation: each fill scales what the last
-- one left by the whole share that remains.
eighth_kept : reserved_notional (run later (after working)) ≡ num 125 1
unfolding after
eighth_kept = refl

-- The 1000 ms from time 0 are over.
expires : (poll 1_000_000 (after working)).0 ≡ ok (7 ∷ [])
unfolding after
expires = refl

run-reserved_notional-le_example : reserved_notional (run working (empty most)) ≼ most
run-reserved_notional-le_example =
    run-reserved_notional-le fixed-IsOrdered most working refl
      ((refl, refl), (tt, (tt, (refl, tt))))

abbrev Stored : OrderManager ℤ → ManagedOrder ℤ → Type 0
Stored om o = lookup 7 om.orders ≡ some o

-- and as those of `cancelling` do
abbrev gone : ManagedOrder ℤ
gone = record half {
  state = cancelled;
  reserved_risk_usd = num 0 1;
  reserved_notional_usd = num 0 1;
  revision = 5;
  history = half.history ++ ((60, OState.cancel_pending) ∷ (70, cancelled) ∷ []);
}

run_ended_example :
    (o' : ManagedOrder ℤ) × (lookup 7 (run later (run cancelling (empty most))).orders ≡ some o')
    × (o'.request ≡ gone.request)
    × (o'.state ≡ gone.state)
    × (o'.reserved_notional_usd ≡ num 0 1)
    × (o'.reserved_risk_usd ≡ num 0 1)
unfolding after
run_ended_example =
    run_ended fixed-IsOrdered most cancelling later 7 gone refl
      ((refl, refl), (tt, (tt, (refl, (tt, (tt, tt)))))) (refl, tt) refl refl

poll-clears_example :
    ((cs : List ℕ) × ((poll 1_000_000 (after working)).0 ≡ ok cs))
    × ((k : ℕ) → has_overdue 1_000_000 k (poll 1_000_000 (after working)).1 ≡ false)
poll-clears_example = poll-clears 1_000_000 (after working)

on_fill-late_example :
    ((on_fill 80 (fill 50) (after cancelling)).0 ≡ err (illegal_transition cancelled filled))
    × (lookup 7 (on_fill 80 (fill 50) (after cancelling)).1.orders
        ≡ some (book_fill (fill 50) gone))
    × ((book_fill (fill 50) gone).state ≡ cancelled)
    × ((book_fill (fill 50) gone).filled_qty ≡ num 50 1 ⊕ num 50 1)
unfolding after
on_fill-late_example = on_fill-late 80 (fill 50) (after cancelling) gone refl refl refl refl

on_fill-completes_example :
    (o' : ManagedOrder ℤ) × ((on_fill 40 (fill 50) (after working)).0 ≡ ok tt)
    × (lookup 7 (on_fill 40 (fill 50) (after working)).1.orders ≡ some o')
    × ((on_fill 40 (fill 50) (after working)).1.ended ≡ (after working).ended ++ (o' ∷ []))
    × (o'.state ≡ filled)
    × (o'.filled_qty ≡ num 50 1 ⊕ num 50 1)
    × (o'.reserved_risk_usd ≡ num 0 1)
    × (o'.reserved_notional_usd ≡ num 0 1)
    × (o'.request ≡ request)
unfolding after
on_fill-completes_example = on_fill-completes 40 (fill 50) (after working) half refl refl refl
