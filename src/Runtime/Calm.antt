-- ===== src/Runtime/Calm.antt =====
-- runtime.py: under the kill switch no entry order is created.
use liquidity_bot.Prelude.{
  ℕ, ◌≤◌, ◌≡◌, refl, ap, ◌∙◌, Bool, true, false, ◌&&◌, Option, none, [], ◌∷◌, ◌++◌, if◌then◌else◌,
  if_cases, insert, has_key, ◌==◌, arith, Bool-cases, inl, inr, Dict,
}
use liquidity_bot.Float.{Float, IsOrdered, lit, lt, ◌⊕◌, ◌⊗◌, abs}
use liquidity_bot.Models.{Symbol, Time, Quote, Signal, OrderRequest, mid, is_entry_intent}
use liquidity_bot.Models.Features.{FeatureVector}
use liquidity_bot.Orders.{
  ManagedOrder, OrderManager, Outcome, ok, err, gross_notional, created, log_call,
  reserved_notional, create, new_order, is_active_entry, active_orders, active_entry_symbols,
}
use liquidity_bot.Orders.Creation.{count-insert}
use liquidity_bot.Orders.Invariant.{count, Evolves-count}
use liquidity_bot.Positions.{ExitReason, ExitInstruction}
use liquidity_bot.Adaptive.{day}
use liquidity_bot.Journal.{next_client_order_id, seq_key_of}
use liquidity_bot.Risk
use liquidity_bot.Risk.{kill_switch}
use liquidity_bot.Runtime.{Engine, Run, Naming, exit_text, fail_entry}
use liquidity_bot.Runtime.Submit.{
  is_approved, dispatch, exit_created, exit_request, has_exit, submit_entry, open_exit,
}
use liquidity_bot.Runtime.Steps.{Goes}
use liquidity_bot.Runtime.Invariant.{dispatch-Goes}
use liquidity_bot.Runtime.Traversal.{Rules}

module _ {F : Type 0} ⦃f : Float F⦄ where
  abbrev pub entries : Symbol → OrderManager F → ℕ
  entries s om = count s (active_entry_symbols om.orders)

  abbrev pub is_killed : Engine F → Bool
  is_killed e = e.core.risk.cfg.kill_switch

  -- Under the kill switch no symbol gains an entry order, and the switch stays.
  pub record Calm (e e' : Engine F) : Type 0 where
    pub stays : is_killed e ≡ true → is_killed e' ≡ true
    pub fewer : (s : Symbol) → is_killed e ≡ true → entries s e'.core.om ≤ entries s e.core.om

  pub Calm-refl : (e : Engine F) → Calm e e
  Calm-refl e = record { stays = λ k. k; fewer = λ s k. omega arith }

  pub Calm-trans : (a b c : Engine F) → Calm a b → Calm b c → Calm a c
  Calm-trans a b c h k = record {
    stays = λ x. k.stays (h.stays x);
    fewer = λ s x. omega (arith, h.fewer s x, k.fewer s (h.stays x));
  }

  pub same-Calm :
      (e e' : Engine F)
      → e'.core.om.orders ≡ e.core.om.orders
      → e'.core.risk.cfg ≡ e.core.risk.cfg
      → Calm e e'
  same-Calm e e' om cfg = record {
    stays = λ k. ap (λ c. c.kill_switch) cfg ∙ k;
    fewer = λ s k. rw om (omega arith);
  }

  -- The kill switch refuses every signal.
  is_approved-killed :
      (now : Time) (sig : Signal F) (v : FeatureVector F) (e : Engine F)
      → is_killed e ≡ true
      → is_approved now sig v e ≡ false
  unfolding is_approved Risk.approve
  is_approved-killed now sig v e k = rw k refl

  module _ (laws : IsOrdered F) where
    insert-entries :
        (s : Symbol) (k : ℕ) (o : ManagedOrder F) (d : Dict (ManagedOrder F))
        → has_key k d ≡ false
        → is_active_entry o ≡ false
        → count s (active_entry_symbols (insert k o d)) ≤ count s (active_entry_symbols d)
    insert-entries s k o d free idle =
        let more : ℕ = if is_active_entry o && s == o.request.symbol then 1 else 0 in
        let none_more : more ≡ 0 = rw idle refl in
        omega (arith, count-insert laws s k o d free, none_more)

    -- A new order that exits adds no entry order.
    create-entries :
        (now : Time) (req : OrderRequest F) (price risk : F) (ttl : Option ℕ) (latency : ℕ)
        (om : OrderManager F) (s : Symbol)
        → is_entry_intent req.intent ≡ false
        → entries s (create now req price risk ttl latency om).1 ≤ entries s om
    unfolding create new_order
    create-entries now req price risk ttl latency om s exits =
        elim (Bool-cases (has_key req.client_order_id om.orders)) [
          | inl taken ↦ rw taken (omega arith)
          | inr free ↦
              let o = new_order now req risk (abs req.quantity ⊗ price) ttl latency in
              let idle : is_active_entry o ≡ false = rw exits refl in
              let om' : OrderManager F = record om {
                orders = insert req.client_order_id o om.orders;
                journal = om.journal ++ (log_call created o ∷ []);
              } in
              let over =
                lt om.max_gross_notional (reserved_notional om ⊕ abs req.quantity ⊗ price) in
              rw (free, exits)
                (if_cases {A = Outcome F (ManagedOrder F)} (λ r. entries s r.1 ≤ entries s om) over
                  (err gross_notional, om) (ok o, om') (λ _. omega arith)
                  (λ _. insert-entries s req.client_order_id o om.orders free idle))
        ]

    pub Goes-Calm : (e e' : Engine F) → Goes e e' → Calm e e'
    Goes-Calm e e' h = record {
      stays = h.keeps.killed;
      fewer = λ s k. Evolves-count laws s e.core.om.orders e'.core.om.orders h.orders.1;
    }

    exit_created-Calm :
        (now : Time) (reason : ExitReason) (req : OrderRequest F) (e : Engine F)
        (r : Outcome F (ManagedOrder F))
        → ((s : Symbol) → entries s r.1 ≤ entries s e.core.om)
        → Calm e (exit_created now reason req e r).1
    unfolding exit_created
    exit_created-Calm now reason req e (err x, om) v = record { stays = λ k. k; fewer = λ s k. v s }
    exit_created-Calm now reason req e (ok o, om) v =
        let core = record e.core {
          om = om;
          pending_exit = insert req.client_order_id reason e.core.pending_exit;
        } in
        let e' = record e { core = core } in
        Calm-trans e e' (dispatch now req day e').1 (record { stays = λ k. k; fewer = λ s k. v s })
          (Goes-Calm e' (dispatch now req day e').1 (dispatch-Goes laws now req day e'))

    module _ (names : Naming) (pow : F → F → F) (now : Time) (q : Quote F) where
      -- Under the kill switch an entry is not submitted.
      submit_entry-Calm :
          (sig : Signal F) (v : FeatureVector F) (e : Engine F)
          → Calm e (submit_entry names pow now sig v q e).1
      unfolding submit_entry fail_entry
      submit_entry-Calm sig v e = elim (Bool-cases (is_killed e)) [
        | inl killed ↦ rw (is_approved-killed now sig v e killed) (same-Calm e _ refl refl)
        | inr alive ↦ record { stays = λ k. cc; fewer = λ s k. cc }
      ]

      open_exit-Calm : (i : ExitInstruction F) (e : Engine F) → Calm e (open_exit names now q i e).1
      unfolding open_exit exit_request
      open_exit-Calm i e =
          let key = seq_key_of (names.date_text now) (names.symbol_text q.symbol) exit_text in
          let next = next_client_order_id key e.journal in
          let req = exit_request q.symbol i (names.coid_of next.0) in
          let e' = record e { journal = next.1 } in
          let made = create now req (mid q) (lit 0) none e.s.latency_ms e.core.om in
          if_cases {A = Run F} (λ r. Calm e r.1)
            (has_exit q.symbol (active_orders e.core.om.orders)) (ok tt, e)
            (exit_created now i.reason req e' made) (λ _. Calm-refl e)
            (λ _. Calm-trans e e' _ (same-Calm e e' refl refl) (
              exit_created-Calm now i.reason req e' made
                (λ s. create-entries now req (mid q) (lit 0) none e.s.latency_ms e.core.om s refl)))

    pub Calm-rules : Rules Calm
    Calm-rules = record {
      stay = Calm-refl;
      trans = Calm-trans;
      goes = Goes-Calm;
      same = λ e e' om cfg _ _. same-Calm e e' (ap (λ o. o.orders) om) cfg;
      entry = λ names pow now q _ sig v e. submit_entry-Calm names pow now q sig v e;
      exits = λ names now q _ i e. open_exit-Calm names (λ x y. x) now q i e;
    }
