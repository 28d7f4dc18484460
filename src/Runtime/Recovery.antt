-- ===== src/Runtime/Recovery.antt =====
-- runtime.py: what a restart leaves of the orders that were open.
use liquidity_bot.Prelude.{ℕ, ◌≡◌, [], Bool, if_cases}
use liquidity_bot.Float.{Float, IsOrdered, lit}
use liquidity_bot.Models.{Time}
use liquidity_bot.Orders.{ok, reserved_notional}
use liquidity_bot.Orders.Methods.{poll}
use liquidity_bot.Reconciler.{BrokerReadView}
use liquidity_bot.Ledger.OpenOrders.{
  AreUnreserved, rebuild_open_orders, latest_rows, reopen_all-AreUnreserved,
  restore_all-AreUnreserved, sum_notional-unreserved, poll-unreserved,
}
use liquidity_bot.Runtime.{Engine}
use liquidity_bot.Runtime.Loop.{rebuild, recover}

module _ {F : Type 0} ⦃f : Float F⦄ where
  rebuild-AreUnreserved :
      (today : ℕ) (e : Engine F)
      → e.core.om.orders ≡ []
      → AreUnreserved (rebuild today e).core.om.orders
  unfolding rebuild rebuild_open_orders
  rebuild-AreUnreserved today e none_yet =
      restore_all-AreUnreserved (rebuild_open_orders e.journal.path) e.core.om
        (reopen_all-AreUnreserved (latest_rows e.journal.path.lines [])) (rw none_yet tt)

  -- An engine that starts with no orders and recovers those that its journal leaves open reserves nothing
  -- for them, and the timer never cancels or expires one of them: at any time `poll` changes nothing and
  -- asks for no cancel.
  pub recover-Forgets :
      IsOrdered F
      → (today : ℕ) (broker : BrokerReadView F) (e : Engine F) → e.core.om.orders ≡ []
      → let om = (recover today broker e).1.core.om in
        (reserved_notional om ≡ lit 0) × ((now : Time) → poll now om ≡ (ok [], om))
  unfolding recover
  recover-Forgets laws today broker e none_yet =
      let e' = rebuild today e in
      let none_reserved = rebuild-AreUnreserved today e none_yet in
      if_cases {A = Bool × Engine F}
        (λ r.
          (reserved_notional r.1.core.om ≡ lit 0)
          × ((now : Time) → poll now r.1.core.om ≡ (ok [], r.1.core.om)))
        e.live _ _ (λ _. forgets e' none_reserved) (λ _. forgets e' none_reserved)
    where
      forgets :
          (e' : Engine F)
          → AreUnreserved e'.core.om.orders
          → (reserved_notional e'.core.om ≡ lit 0)
            × ((now : Time) → poll now e'.core.om ≡ (ok [], e'.core.om))
      forgets e' u = (
        unfold reserved_notional in sum_notional-unreserved laws e'.core.om.orders (lit 0) u,
        λ now. poll-unreserved now e'.core.om u,
      )
