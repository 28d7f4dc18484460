-- ===== src/Runtime/Decisions.antt =====
-- runtime.py: the submission of an entry and of an exit keeps the order manager's invariant.
use liquidity_bot.Prelude.{refl, not, none, some, if_cases}
use liquidity_bot.Float.{Float, IsOrdered, lit, le, ◌≼◌}
use liquidity_bot.Models.{Symbol, Time, Quote, Signal, mid}
use liquidity_bot.Models.Features.{FeatureVector}
use liquidity_bot.Orders.{create, active_orders, ok}
use liquidity_bot.Orders.Creation.{create-IsValid}
use liquidity_bot.Positions.{ExitInstruction}
use liquidity_bot.Journal.{next_client_order_id, seq_key_of}
use liquidity_bot.Runtime.{Engine, Run, Naming, entry_text, exit_text, is_known, fail_entry}
use liquidity_bot.Runtime.Submit.{
  is_approved, entry_qty, entry_created, entry_request, exit_created, exit_request, has_exit,
  plan_of, open_entry, submit_entry, open_exit,
}
use liquidity_bot.Runtime.Invariant.{
  Leads, Leads-refl, Leads-trans, same-Leads, entry_created-Leads, exit_created-Leads,
}
use liquidity_bot.Runtime.Invariant.{Goes-Leads}
use liquidity_bot.Runtime.Traversal.{Rules}

module _ {F : Type 0} ⦃f : Float F⦄ (laws : IsOrdered F) where
  fail_entry-Leads : (now : Time) (s : Symbol) (e : Engine F) → Leads e (fail_entry now s e)
  unfolding fail_entry
  fail_entry-Leads now s e = same-Leads e _ refl refl refl refl

  module _ (names : Naming) (pow : F → F → F) (now : Time) (q : Quote F)
      (priced : lit 0 ≼ mid q) where
    open_entry-Leads :
        (sig : Signal F) (v : FeatureVector F) (qty : F) (e : Engine F)
        → Leads e (open_entry names pow now sig v q qty e).1
    unfolding open_entry
    open_entry-Leads sig v qty e =
        let plan = plan_of names pow sig v q e in
        let key = seq_key_of (names.date_text now) (names.symbol_text sig.symbol) entry_text in
        let next = next_client_order_id key e.journal in
        let req = entry_request sig plan qty (names.coid_of next.0) in
        let e' = record e { journal = next.1 } in
        let made = create now req (mid q) e.s.risk_per_trade_usd (some plan.ttl_ms) 0 e.core.om in
        if_cases {A = Run F} (λ r. Leads e r.1) (is_known names next.0 e') (ok tt, e')
          (entry_created now sig req plan.tif e' made) (λ _. same-Leads e e' refl refl refl refl)
          (λ _. Leads-trans e e' _ (same-Leads e e' refl refl refl refl) (
            entry_created-Leads laws now sig req plan.tif e' made (λ x.
              create-IsValid laws now req (mid q) e.s.risk_per_trade_usd (some plan.ttl_ms) 0
                e.core.om priced x.risk x.valid)))

    submit_entry-Leads :
        (sig : Signal F) (v : FeatureVector F) (e : Engine F)
        → Leads e (submit_entry names pow now sig v q e).1
    unfolding submit_entry
    submit_entry-Leads sig v e =
        let fails = fail_entry-Leads now sig.symbol e in
        if_cases {A = Run F} (λ r. Leads e r.1) (not (is_approved now sig v e)) _ _ (λ _. fails)
          (λ _.
            if_cases {A = Run F} (λ r. Leads e r.1) (le (entry_qty sig v e) (lit 0)) _ _
              (λ _. fails) (λ _. open_entry-Leads sig v (entry_qty sig v e) e))

    open_exit-Leads : (i : ExitInstruction F) (e : Engine F) → Leads e (open_exit names now q i e).1
    unfolding open_exit
    open_exit-Leads i e =
        let key = seq_key_of (names.date_text now) (names.symbol_text q.symbol) exit_text in
        let next = next_client_order_id key e.journal in
        let req = exit_request q.symbol i (names.coid_of next.0) in
        let e' = record e { journal = next.1 } in
        let made = create now req (mid q) (lit 0) none e.s.latency_ms e.core.om in
        if_cases {A = Run F} (λ r. Leads e r.1) (has_exit q.symbol (active_orders e.core.om.orders))
          (ok tt, e) (exit_created now i.reason req e' made) (λ _. Leads-refl e)
          (λ _. Leads-trans e e' _ (same-Leads e e' refl refl refl refl) (
            exit_created-Leads laws now i.reason req e' made (λ x.
              create-IsValid laws now req (mid q) (lit 0) none e.s.latency_ms e.core.om priced
                (laws.le_refl (lit 0)) x.valid)))

  pub Leads-rules : Rules {F = F} Leads
  Leads-rules = record {
    stay = Leads-refl;
    trans = Leads-trans;
    goes = Goes-Leads laws;
    same = same-Leads;
    entry = submit_entry-Leads;
    exits = λ names now q priced i e. open_exit-Leads names (λ x y. x) now q priced i e;
  }
