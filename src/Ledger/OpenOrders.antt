-- ===== src/Ledger/OpenOrders.antt =====
-- execution/ledger.py: the orders that are still open at the end of the order journal's file.
use liquidity_bot.Prelude.{
  ℕ, Option-cases, Bool-cases, inl, inr, lookup, keys, some_inj, Option, none, some, List, [], ◌∷◌,
  ◌≡◌, refl, subst, if◌then◌else◌, All, if_cases, Dict, insert, ◌==◌,
}
use liquidity_bot.LogFile.{LogFile}
use liquidity_bot.Float.{Float, IsOrdered, ◌⊕◌, lit}
use liquidity_bot.Journal.{Text, same_text, is_nil, Row}
use liquidity_bot.Orders.{terminal, ManagedOrder, OrderManager, Outcome, ok, sum_notional}
use liquidity_bot.Orders.Methods.{restore, sweep, sweep_order, poll_keys, go_on, prepend, poll}
use liquidity_bot.Models.{Time, Coid}

-- `latest[coid] = row`
unfoldable pub set_latest {ℓ} : {R : Type ℓ} → Text → R → List (Text × R) → List (Text × R)
set_latest id r [] = (id, r) ∷ []
set_latest id r (item ∷ d) = if same_text id item.0 then (id, r) ∷ d else item ∷ set_latest id r d

module _ {F : Type 0} ⦃f : Float F⦄ where
  unfoldable pub latest_rows : List (Option (Row F)) → List (Text × Row F) → List (Text × Row F)
  latest_rows [] d = d
  latest_rows (none ∷ rows) d = latest_rows rows d
  latest_rows (some r ∷ rows) d = latest_rows rows (if is_nil r.id then d else set_latest r.id r d)

  -- the order made of the last row of its id
  unfoldable pub reopened : Row F → ManagedOrder F
  reopened r = record {
    request = r.request;
    state = r.status;
    filled_qty = r.filled;
    avg_fill_price = lit 0;
    reserved_risk_usd = lit 0;
    reserved_notional_usd = lit 0;
    created_at = none;
    activate_at = none;
    expire_at = none;
    revision = 0;
    history = [];
  }

  unfoldable pub reopen_all : List (Text × Row F) → List (ManagedOrder F)
  reopen_all [] = []
  reopen_all ((id, r) ∷ d) =
      let rest = reopen_all d in if terminal r.status then rest else reopened r ∷ rest

  unfoldable pub rebuild_open_orders : LogFile (Row F) → List (ManagedOrder F)
  rebuild_open_orders file = reopen_all (latest_rows file.lines [])

  -- the loop of `recover` over these orders
  unfoldable pub restore_all : List (ManagedOrder F) → OrderManager F → OrderManager F
  unfolding restore
  restore_all [] om = om
  restore_all (o ∷ os) om = restore_all os (restore o om)

  -- an order that reserves nothing and has no deadline
  abbrev pub IsUnreserved : ManagedOrder F → Type 0
  IsUnreserved o = (o.reserved_notional_usd ≡ lit 0) × (o.expire_at ≡ none)

  abbrev pub AreUnreserved : Dict (ManagedOrder F) → Type 0
  AreUnreserved = All (λ e. IsUnreserved e.1)

  pub reopen_all-AreUnreserved : (d : List (Text × Row F)) → All IsUnreserved (reopen_all d)
  unfolding reopen_all reopened
  reopen_all-AreUnreserved [] = tt
  reopen_all-AreUnreserved ((id, r) ∷ d) =
      if_cases (All IsUnreserved) (terminal r.status) (reopen_all d) (reopened r ∷ reopen_all d)
        (λ _. reopen_all-AreUnreserved d) (λ _. ((refl, refl), reopen_all-AreUnreserved d))

  insert-AreUnreserved :
      (k : ℕ) (o : ManagedOrder F) (d : Dict (ManagedOrder F))
      → IsUnreserved o
      → AreUnreserved d
      → AreUnreserved (insert k o d)
  insert-AreUnreserved k o [] h u = (h, tt)
  insert-AreUnreserved k o (item ∷ d) h u =
      if_cases AreUnreserved (k == item.0) ((k, o) ∷ d) (item ∷ insert k o d) (λ _. (h, u.1))
        (λ _. (u.0, insert-AreUnreserved k o d h u.1))

  pub restore_all-AreUnreserved :
      (os : List (ManagedOrder F)) (om : OrderManager F)
      → All IsUnreserved os
      → AreUnreserved om.orders
      → AreUnreserved (restore_all os om).orders
  unfolding restore_all restore
  restore_all-AreUnreserved [] om h u = u
  restore_all-AreUnreserved (o ∷ os) om h u =
      restore_all-AreUnreserved os (restore o om) h.1
        (insert-AreUnreserved o.request.client_order_id o om.orders h.0 u)

  pub sum_notional-unreserved :
      IsOrdered F
      → (d : Dict (ManagedOrder F)) (acc : F) → AreUnreserved d
      → sum_notional acc d ≡ acc
  unfolding sum_notional
  sum_notional-unreserved laws [] acc u = refl
  sum_notional-unreserved laws ((k, o) ∷ d) acc u =
      if_cases (λ x. sum_notional x d ≡ acc) (terminal o.state) acc (acc ⊕ o.reserved_notional_usd)
        (λ _. sum_notional-unreserved laws d acc u.1)
        (λ _. rw (u.0.0, laws.add-zero acc) (sum_notional-unreserved laws d acc u.1))

  lookup-AreUnreserved :
      (k : ℕ) (d : Dict (ManagedOrder F)) (o : ManagedOrder F)
      → AreUnreserved d
      → lookup k d ≡ some o
      → IsUnreserved o
  lookup-AreUnreserved k [] o u h = absurd (cc)
  lookup-AreUnreserved k ((j, p) ∷ d) o u h = elim (Bool-cases (k == j)) [
    | inl same ↦ subst IsUnreserved (some_inj.0 (rw same at h)) u.0
    | inr other ↦ lookup-AreUnreserved k d o u.1 (rw other at h)
  ]

  sweep-unreserved :
      (now : Time) (k : ℕ) (om : OrderManager F)
      → AreUnreserved om.orders
      → sweep now k om ≡ (ok [], om)
  unfolding sweep sweep_order
  sweep-unreserved now k om u = elim (Option-cases (lookup k om.orders)) [
    | inl absent ↦ rw absent refl
    | inr (o, stored) ↦
        rw (stored, (lookup-AreUnreserved k om.orders o u stored).1)
          (if_cases {A = Outcome F (List Coid)} (λ r. r ≡ (ok [], om)) (terminal o.state)
            (ok [], om) (ok [], om) (λ _. refl) (λ _. refl))
  ]

  poll_keys-unreserved :
      (now : Time) (ks : List ℕ) (om : OrderManager F)
      → AreUnreserved om.orders
      → poll_keys now ks om ≡ (ok [], om)
  unfolding poll_keys go_on prepend
  poll_keys-unreserved now [] om u = refl
  poll_keys-unreserved now (k ∷ ks) om u =
      rw (sweep-unreserved now k om u, poll_keys-unreserved now ks om u) refl

  pub poll-unreserved :
      (now : Time) (om : OrderManager F) → AreUnreserved om.orders → poll now om ≡ (ok [], om)
  unfolding poll
  poll-unreserved now om u = poll_keys-unreserved now (keys om.orders) om u
