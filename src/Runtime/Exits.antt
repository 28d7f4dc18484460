-- ===== src/Runtime/Exits.antt =====
-- runtime.py: at most one exit works for a symbol.
use liquidity_bot.Prelude.{
  ℕ, ◌+◌, ◌≤◌, ◌≡◌, refl, false, ◌&&◌, ◌||◌, not, none, some, List, [], ◌∷◌, if_cases, All, insert,
  ◌==◌, arith, Bool-cases, inl, inr, Dict, ==_iff,
}
use liquidity_bot.Float.{Float, IsOrdered, lit, le}
use liquidity_bot.Models.{Symbol, Time, Quote, Signal, OrderRequest, mid}
use liquidity_bot.Models.Features.{FeatureVector}
use liquidity_bot.Orders.{
  ManagedOrder, OrderManager, Outcome, ok, err, create, active_orders, terminal,
}
use liquidity_bot.Orders.Invariant.{count}
use liquidity_bot.Orders.Active.{tally, active_symbols, Evolves-active, create-active}
use liquidity_bot.Positions.{ExitReason, ExitInstruction}
use liquidity_bot.Adaptive.{Tif, day}
use liquidity_bot.Journal.{next_client_order_id, seq_key_of}
use liquidity_bot.Runtime.{Engine, Run, Naming, entry_text, exit_text, is_known, fail_entry}
use liquidity_bot.Runtime.Submit.{
  is_exit_intent, is_approved, entry_qty, dispatch, entry_created, entry_request, exit_created,
  exit_request, has_exit, plan_of, open_entry, submit_entry, open_exit,
}
use liquidity_bot.Runtime.Steps.{Goes}
use liquidity_bot.Runtime.Events.{Occurrence, session, IsPriced}
use liquidity_bot.Runtime.Invariant.{IsFit, dispatch-Goes}
use liquidity_bot.Runtime.Traversal.{Rules}
use liquidity_bot.Runtime.Reservations.{session-R}

module _ {F : Type 0} ⦃f : Float F⦄ where
  -- how many exit orders of the symbol are not terminal
  abbrev pub exit_count : Symbol → OrderManager F → ℕ
  exit_count s om = count s (active_symbols is_exit_intent om.orders)

  abbrev pub IsSingle : Engine F → Type 0
  IsSingle e = (s : Symbol) → exit_count s e.core.om ≤ 1

  abbrev Lasts : Engine F → Engine F → Type 0
  Lasts e e' = IsSingle e → IsSingle e'

  -- Where the loop over the active orders finds no exit of the symbol, there is none.
  no_exit_lem :
      (s : Symbol) (d : Dict (ManagedOrder F))
      → has_exit s (active_orders d) ≡ false
      → count s (active_symbols is_exit_intent d) ≡ 0
  unfolding has_exit active_orders active_symbols
  no_exit_lem s [] h = refl
  no_exit_lem s ((k, o) ∷ d) h = elim (Bool-cases (terminal o.state)) [
    | inl ended ↦
        let rest : has_exit s (active_orders d) ≡ false = rw ended at h in
        ground (arith, no_exit_lem s d rest)
    | inr live ↦
        let each : (o.request.symbol == s && is_exit_intent o.request.intent
              || has_exit s (active_orders d))
            ≡ false =
          rw live at h in
        ground (arith, no_exit_lem s d)
  ]

  module _ (laws : IsOrdered F) where
    Goes-Lasts : (e e' : Engine F) → Goes e e' → Lasts e e'
    Goes-Lasts e e' h single s = omega (
      arith,
      Evolves-active is_exit_intent s e.core.om.orders e'.core.om.orders h.orders.1,
      single s,
    )

    -- An entry that is created, and one that is refused, adds no exit.
    entry_created-Lasts :
        (now : Time) (sig : Signal F) (req : OrderRequest F) (tif : Tif) (e : Engine F)
        (r : Outcome F (ManagedOrder F))
        → (IsSingle e → (s : Symbol) → exit_count s r.1 ≤ 1)
        → Lasts e (entry_created now sig req tif e r).1
    unfolding entry_created fail_entry
    entry_created-Lasts now sig req tif e (err x, om) h single = h single
    entry_created-Lasts now sig req tif e (ok o, om) h single =
        let core = record e.core {
          om = om;
          pending_sig = insert req.client_order_id sig e.core.pending_sig;
        } in
        let e' = record e { core = core } in
        Goes-Lasts e' (dispatch now req tif e').1 (dispatch-Goes laws now req tif e') (h single)

    exit_created-Lasts :
        (now : Time) (reason : ExitReason) (req : OrderRequest F) (e : Engine F)
        (r : Outcome F (ManagedOrder F))
        → (IsSingle e → (s : Symbol) → exit_count s r.1 ≤ 1)
        → Lasts e (exit_created now reason req e r).1
    unfolding exit_created
    exit_created-Lasts now reason req e (err x, om) h single = h single
    exit_created-Lasts now reason req e (ok o, om) h single =
        let core = record e.core {
          om = om;
          pending_exit = insert req.client_order_id reason e.core.pending_exit;
        } in
        let e' = record e { core = core } in
        Goes-Lasts e' (dispatch now req day e').1 (dispatch-Goes laws now req day e') (h single)

    module _ (names : Naming) (pow : F → F → F) (now : Time) (q : Quote F) where
      open_entry-Lasts :
          (sig : Signal F) (v : FeatureVector F) (qty : F) (e : Engine F)
          → Lasts e (open_entry names pow now sig v q qty e).1
      unfolding open_entry entry_request
      open_entry-Lasts sig v qty e =
          let plan = plan_of names pow sig v q e in
          let key = seq_key_of (names.date_text now) (names.symbol_text sig.symbol) entry_text in
          let next = next_client_order_id key e.journal in
          let req = entry_request sig plan qty (names.coid_of next.0) in
          let e' = record e { journal = next.1 } in
          let made = create now req (mid q) e.s.risk_per_trade_usd (some plan.ttl_ms) 0 e.core.om in
          if_cases {A = Run F} (λ r. Lasts e r.1) (is_known names next.0 e') (ok tt, e')
            (entry_created now sig req plan.tif e' made) (λ _ single. single)
            (λ _. entry_created-Lasts now sig req plan.tif e' made (λ single s. omega (
              arith,
              create-active is_exit_intent now req (mid q) e.s.risk_per_trade_usd (some plan.ttl_ms)
                  0 e.core.om s,
              single s,
            )))

      submit_entry-Lasts :
          (sig : Signal F) (v : FeatureVector F) (e : Engine F)
          → Lasts e (submit_entry names pow now sig v q e).1
      unfolding submit_entry fail_entry
      submit_entry-Lasts sig v e =
          if_cases {A = Run F} (λ r. Lasts e r.1) (not (is_approved now sig v e)) _ _
            (λ _ single. single)
            (λ _.
              if_cases {A = Run F} (λ r. Lasts e r.1) (le (entry_qty sig v e) (lit 0)) _ _
                (λ _ single. single) (λ _. open_entry-Lasts sig v (entry_qty sig v e) e))

      one_more :
          (n : ℕ) (m : ℕ) (s t : Symbol) → n ≤ m + tally (s == t) → m ≤ 1 → (s ≡ t → m ≡ 0) → n ≤ 1
      one_more n m s t h k free = ground (arith, ==_iff s t)

      open_exit-Lasts :
          (i : ExitInstruction F) (e : Engine F) → Lasts e (open_exit names now q i e).1
      unfolding open_exit exit_request
      open_exit-Lasts i e =
          let key = seq_key_of (names.date_text now) (names.symbol_text q.symbol) exit_text in
          let next = next_client_order_id key e.journal in
          let req = exit_request q.symbol i (names.coid_of next.0) in
          let e' = record e { journal = next.1 } in
          let made = create now req (mid q) (lit 0) none e.s.latency_ms e.core.om in
          if_cases {A = Run F} (λ r. Lasts e r.1)
            (has_exit q.symbol (active_orders e.core.om.orders)) (ok tt, e)
            (exit_created now i.reason req e' made) (λ _ single. single)
            (λ free. exit_created-Lasts now i.reason req e' made (λ single s.
              one_more (exit_count s made.1) (exit_count s e.core.om) s q.symbol
                (create-active is_exit_intent now req (mid q) (lit 0) none e.s.latency_ms e.core.om
                  s)
                (single s) (λ same. rw same (no_exit_lem q.symbol e.core.om.orders free))))

    Lasts-rules : Rules {F = F} Lasts
    Lasts-rules = record {
      stay = λ e single. single;
      trans = λ a b c h k single. k (h single);
      goes = Goes-Lasts;
      same = λ e e' om _ _ _ single s. rw om (single s);
      entry = λ names pow now q _ sig v e. submit_entry-Lasts names pow now q sig v e;
      exits = λ names now q _ i e. open_exit-Lasts names (λ x y. x) now q i e;
    }

    -- From an engine that meets the order manager's invariant, has settings that are not negative and at most
    -- one exit order that is not terminal for each symbol, there is at most one for each symbol after any
    -- quotes at prices that are not negative, trades, ticks and shutdowns, in paper or live mode, also where
    -- an exit rule fires again before the order ends.
    pub session-IsSingle :
        (names : Naming) (pow : F → F → F) (random : ℕ → F) (xs : List (Occurrence F))
        (e : Engine F)
        → All (λ x. IsPriced x.event) xs
        → IsFit e
        → IsSingle e
        → IsSingle (session names pow random xs e)
    session-IsSingle names pow random xs e h x single =
        session-R laws names pow random Lasts Lasts-rules xs e h x single
