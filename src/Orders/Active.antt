-- ===== src/Orders/Active.antt =====
-- execution/order_manager.py: the symbols of the orders that are not terminal and whose intent passes a
-- test, and how many of one symbol there are.
use liquidity_bot.Prelude.{
  ℕ, ◌+◌, ◌≤◌, ◌≡◌, refl, ap, Bool, true, false, not, ◌&&◌, Option, List, [], ◌∷◌, ◌++◌, arith,
  if◌then◌else◌, if_cases, Bool-cases, inl, inr, Dict, insert, has_key, ◌==◌,
}
use liquidity_bot.Float.{Float, ◌⊕◌, ◌⊗◌, lt, abs}
use liquidity_bot.Models.{Symbol, Time, Intent, OrderRequest, is_entry_intent}
use liquidity_bot.Orders.{
  ManagedOrder, OrderManager, Outcome, terminal, create, new_order, reserved_notional,
  has_active_entry, created, log_call, ok, err, duplicate_coid, active_entry_intent, gross_notional,
}
use liquidity_bot.Orders.Evolution.{Advances, Evolves}
use liquidity_bot.Orders.Invariant.{count}

and_true : (b : Bool) → (b && true) ≡ b
and_true true = refl
and_true false = refl

-- what one order adds to a count
abbrev pub tally : Bool → ℕ
tally true = 1
tally false = 0

module _ {F : Type 0} ⦃f : Float F⦄ (p : Intent → Bool) where
  abbrev pub is_active : ManagedOrder F → Bool
  is_active o = p o.request.intent && not (terminal o.state)

  unfoldable pub active_symbols : Dict (ManagedOrder F) → List Symbol
  active_symbols [] = []
  active_symbols ((_, o) ∷ d) =
      let rest = active_symbols d in if is_active o then o.request.symbol ∷ rest else rest

  active_before : (o o' : ManagedOrder F) → Advances o o' → is_active o' ≡ true → is_active o ≡ true
  active_before o o' a h = elim (Bool-cases (terminal o.state)) [
    | inl ended ↦ ground (arith, ap terminal (a.absorbed ended))
    | inr live ↦ rw live (ground (arith, ap p (ap (λ r. r.intent) a.same_request)))
  ]

  count-active :
      (s : Symbol) (o o' : ManagedOrder F) (xs xs' : List Symbol)
      → Advances o o'
      → count s xs' ≤ count s xs
      → count s (if is_active o' then o'.request.symbol ∷ xs' else xs')
        ≤ count s (if is_active o then o.request.symbol ∷ xs else xs)
  count-active s o o' xs xs' a h = elim (Bool-cases (is_active o')) [
    | inl active ↦ rw (active, active_before o o' a active, a.same_request) (omega arith)
    | inr idle ↦ rw idle (elim (Bool-cases (is_active o)) [
      | inl was ↦ rw was (omega arith)
      | inr never ↦ rw never h
    ])
  ]

  pub Evolves-active :
      (s : Symbol) (d d' : Dict (ManagedOrder F))
      → Evolves d d'
      → count s (active_symbols d') ≤ count s (active_symbols d)
  unfolding active_symbols
  Evolves-active s [] [] h = omega arith
  Evolves-active s ((x, o) ∷ d) ((y, o') ∷ d') (_, a, h) =
      count-active s o o' (active_symbols d) (active_symbols d') a (Evolves-active s d d' h)
  Evolves-active s [] (_ ∷ _) h = absurd h
  Evolves-active s (_ ∷ _) [] h = absurd h

  insert-active :
      (s : Symbol) (k : ℕ) (o : ManagedOrder F) (d : Dict (ManagedOrder F))
      → has_key k d ≡ false
      → count s (active_symbols (insert k o d))
        ≡ count s (active_symbols d) + tally (is_active o && s == o.request.symbol)
  unfolding active_symbols
  insert-active s k o [] h = ground arith
  insert-active s k o ((j, q) ∷ d) h = elim (Bool-cases (k == j)) [
    | inl same ↦ absurd (taken same)
    | inr other ↦
        let ih = insert-active s k o d (ground arith) in
        rw other (elim (Bool-cases (is_active q)) [
          | inl active ↦ rw active (omega (arith, ih))
          | inr idle ↦ rw idle ih
        ])
  ]
    where
      taken : (k == j) ≡ true → ⊥
      taken same = ground arith

  -- `create` adds at most its own order.
  pub create-active :
      (now : Time) (req : OrderRequest F) (price risk : F) (ttl : Option ℕ) (latency : ℕ)
      (om : OrderManager F) (s : Symbol)
      → count s (active_symbols (create now req price risk ttl latency om).1.orders)
        ≤ count s (active_symbols om.orders) + tally (p req.intent && s == req.symbol)
  unfolding create new_order
  create-active now req price risk ttl latency om s =
      let bound : ℕ =
        count s (active_symbols om.orders) + tally (p req.intent && s == req.symbol) in
      let o = new_order now req risk (abs req.quantity ⊗ price) ttl latency in
      let om' : OrderManager F = record om {
        orders = insert req.client_order_id o om.orders;
        journal = om.journal ++ (log_call created o ∷ []);
      } in
      let over = lt om.max_gross_notional (reserved_notional om ⊕ abs req.quantity ⊗ price) in
      let refused = is_entry_intent req.intent && has_active_entry req.symbol om.orders in
      let keeps : count s (active_symbols om.orders) ≤ bound = omega arith in
      let P = λ (r : Outcome F (ManagedOrder F)). count s (active_symbols r.1.orders) ≤ bound in
      if_cases P (has_key req.client_order_id om.orders) (err duplicate_coid, om) _ (λ _. keeps)
        (λ free.
          if_cases P refused (err active_entry_intent, om) _ (λ _. keeps)
            (λ _.
              if_cases P over (err gross_notional, om) (ok o, om') (λ _. keeps)
                (λ _.
                  let live : is_active o ≡ p req.intent = and_true (p req.intent) in
                  let one = ap (λ (b : Bool). tally (b && s == req.symbol)) live in
                  omega (arith, insert-active s req.client_order_id o om.orders free, one))))
