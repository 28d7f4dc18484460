-- ===== src/Orders/Creation.antt =====
-- execution/order_manager.py: `create` keeps the invariant of the orders.
use liquidity_bot.Prelude.{
  ℕ, ◌+◌, ◌≡◌, refl, inl, inr, true, false, ◌&&◌, Option, List, [], ◌∷◌, arith, Bool-cases,
  if_cases, if◌then◌else◌, Dict, insert, has_key, contains, ◌==◌, ==_iff,
}
use liquidity_bot.Float.{Float, IsOrdered, ◌⊕◌, ◌⊗◌, lit, lt, ◌≼◌, abs}
use liquidity_bot.Float.Order
use liquidity_bot.Models.{Coid, Symbol, Time, OrderRequest, is_entry_intent}
use liquidity_bot.Orders.{
  terminal, ManagedOrder, OrderManager, JournalCall, Outcome, is_active_entry, sum_notional,
  reserved_notional, active_entry_symbols, has_active_entry, new_order, create,
}
use liquidity_bot.Orders.Evolution.{IsSound}
use liquidity_bot.Orders.Invariant.{IsValid, AllSound, count}

module _ {F : Type 0} ⦃f : Float F⦄ (laws : IsOrdered F) where
  open laws use {le_refl}

  sum_notional-insert :
      (acc : F) (k : Coid) (o : ManagedOrder F) (d : Dict (ManagedOrder F))
      → has_key k d ≡ false
      → terminal o.state ≡ false
      → sum_notional acc (insert k o d) ≡ sum_notional acc d ⊕ o.reserved_notional_usd
  unfolding sum_notional
  sum_notional-insert acc k o [] h live = rw live
  sum_notional-insert acc k o ((j, p) ∷ d) h live = elim (Bool-cases (k == j)) [
    | inl same ↦ absurd (absent same)
    | inr other ↦ rw other (
        sum_notional-insert (if terminal p.state then acc else acc ⊕ p.reserved_notional_usd) k o d
          (ground arith) live)
  ]
    where
      absent : (k == j) ≡ true → ⊥
      absent e = ground arith

  AllSound-insert :
      (k : Coid) (o : ManagedOrder F) (d : Dict (ManagedOrder F))
      → IsSound o
      → AllSound d
      → AllSound (insert k o d)
  AllSound-insert k o [] h s = (h, tt)
  AllSound-insert k o ((j, p) ∷ d) h s = elim (Bool-cases (k == j)) [
    | inl same ↦ rw same (h, s.1)
    | inr other ↦ rw other (s.0, AllSound-insert k o d h s.1)
  ]

  pub count-insert :
      (s : Symbol) (k : Coid) (o : ManagedOrder F) (d : Dict (ManagedOrder F))
      → has_key k d ≡ false
      → count s (active_entry_symbols (insert k o d))
        ≡ count s (active_entry_symbols d)
          + (if is_active_entry o && s == o.request.symbol then 1 else 0)
  unfolding active_entry_symbols
  count-insert s k o [] h = ground arith
  count-insert s k o ((j, p) ∷ d) h = elim (Bool-cases (k == j)) [
    | inl same ↦ absurd (taken same)
    | inr other ↦
        let ih = count-insert s k o d (ground arith) in
        rw other (elim (Bool-cases (is_active_entry p)) [
          | inl active ↦ rw active (omega (arith, ih))
          | inr idle ↦ rw idle ih
        ])
  ]
    where
      taken : (k == j) ≡ true → ⊥
      taken e = ground arith

  count-contains : (s : ℕ) (xs : List ℕ) → contains s xs ≡ false → count s xs ≡ 0
  count-contains s [] h = refl
  count-contains s (x ∷ xs) h = ground (arith, count-contains s xs)

  -- A live order under a new key keeps the invariant, if its symbol has no active entry (or it is no
  -- entry) and its reservation fits.
  added-IsValid :
      (k : Coid) (o : ManagedOrder F) (calls : List (JournalCall F)) (om : OrderManager F)
      → has_key k om.orders ≡ false
      → terminal o.state ≡ false
      → IsSound o
      → (is_active_entry o && has_active_entry o.request.symbol om.orders) ≡ false
      → reserved_notional om ⊕ o.reserved_notional_usd ≼ om.max_gross_notional
      → IsValid om
      → IsValid (record om { orders = insert k o om.orders; journal = calls })
  unfolding reserved_notional has_active_entry
  added-IsValid k o calls om fresh live s free fits v = record {
    sound = AllSound-insert k o om.orders s v.sound;
    within = rw (sum_notional-insert (lit 0) k o om.orders fresh live) fits;
    single = λ t. ground (
      arith,
      count-insert t k o om.orders fresh,
      v.single t,
      count-contains t (active_entry_symbols om.orders),
      ==_iff t o.request.symbol,
    );
  }

  new_order-IsSound :
      (now : Time) (req : OrderRequest F) (risk notional : F) (ttl : Option ℕ) (latency : ℕ)
      → lit 0 ≼ risk
      → lit 0 ≼ notional
      → IsSound (new_order now req risk notional ttl latency)
  unfolding new_order
  new_order-IsSound now req risk notional ttl latency hr hn = record {
    filled_nonneg = le_refl (lit 0);
    risk_nonneg = hr;
    notional_nonneg = hn;
    risk_freed = λ e. cc;
    notional_freed = λ e. cc;
  }

  -- A call of `create` with a price and a risk that are not negative keeps the invariant, whether it
  -- raises or not.
  pub create-IsValid :
      (now : Time) (req : OrderRequest F) (price risk : F) (ttl : Option ℕ) (latency : ℕ)
      (om : OrderManager F)
      → lit 0 ≼ price
      → lit 0 ≼ risk
      → IsValid om
      → IsValid (create now req price risk ttl latency om).1
  unfolding create new_order
  create-IsValid now req price risk ttl latency om hp hr v =
      let notional = abs req.quantity ⊗ price in
      let nonneg : lit 0 ≼ notional =
        Order.mul_nonneg laws _ _ (Order.abs_nonneg laws req.quantity) hp in
      if_cases kept (has_key req.client_order_id om.orders) _ _ (λ _. v)
        λ fresh.
          if_cases kept (is_entry_intent req.intent && has_active_entry req.symbol om.orders) _ _
            (λ _. v)
            λ free.
              if_cases kept (lt om.max_gross_notional (reserved_notional om ⊕ notional)) _ _
                (λ _. v)
                λ fits.
                  added-IsValid req.client_order_id (new_order now req risk notional ttl latency) _
                    om fresh refl (new_order-IsSound now req risk notional ttl latency hr nonneg)
                    (ground arith) (Order.le_of_not_lt laws _ _ fits) v
    where
      kept : Outcome F (ManagedOrder F) → Type 0
      kept r = IsValid r.1
