-- ===== src/Runtime/KillSwitch.antt =====
-- runtime.py: what the kill switch forbids all through a session, and what sets it.
use liquidity_bot.Prelude.{
  ℕ, ◌≤◌, ◌≡◌, refl, ap, ◌∙◌, true, false, Bool-cases, inl, inr, ◌⊎◌, List, [], All,
}
use liquidity_bot.Float.{Float, IsOrdered}
use liquidity_bot.Models.{Symbol, Time, Signal}
use liquidity_bot.Models.Features.{FeatureVector}
use liquidity_bot.Risk
use liquidity_bot.Risk.{kill_switch}
use liquidity_bot.Ledger.{RiskLedger, halt, append, read_kind, load_day, load_day-append}
use liquidity_bot.Reconciler.{BrokerReadView, reconcile}
use liquidity_bot.Runtime.{Engine, Naming}
use liquidity_bot.Runtime.Loop.{fail_closed, check_broker, is_recon_due}
use liquidity_bot.Runtime.Events.{Occurrence, session, IsPriced}
use liquidity_bot.Runtime.Invariant.{IsFit}
use liquidity_bot.Runtime.Calm.{entries, is_killed, Calm}
use liquidity_bot.Runtime.Calm.{Calm-rules}
use liquidity_bot.Runtime.Reservations.{session-R}

module _ {F : Type 0} ⦃f : Float F⦄ where
  module _ (laws : IsOrdered F) where
    module _ (names : Naming) (pow : F → F → F) (random : ℕ → F) where
      -- From an engine that meets the order manager's invariant, has settings that are not negative and the
      -- kill switch on, through any quotes at prices that are not negative, trades, ticks and shutdowns, in
      -- paper or live mode, the switch stays on and no symbol gains an entry order that is not terminal.
      pub session-no_entries :
          (xs : List (Occurrence F)) (e : Engine F) (s : Symbol)
          → All (λ x. IsPriced x.event) xs
          → IsFit e
          → is_killed e ≡ true
          → (is_killed (session names pow random xs e) ≡ true)
            × (entries s (session names pow random xs e).core.om ≤ entries s e.core.om)
      session-no_entries xs e s h x k =
          let calm = session-R laws names pow random Calm (Calm-rules laws) xs e h x in
          (calm.stays k, calm.fewer s k)

  halt_read :
      (today : ℕ) (file : RiskLedger F)
      → ((load_day today (append today halt file)).halted ≡ true) ⊎ (file.unended ≡ true)
  halt_read today file = elim (Bool-cases file.unended) [
    | inl torn ↦ inr torn
    | inr ended ↦
        inl
          (ap (λ d. d.halted) (load_day-append today halt file ended) ∙ (unfold read_kind in refl))
  ]

  -- When a live engine is due to reconcile and the reconciliation is not ok, the risk manager that it is
  -- left with refuses every signal at any time with the kill switch as the reason. The risk ledger then
  -- says that the day is halted, whatever it said before, unless an earlier write to it was torn, whose
  -- unended line swallows the halt.
  pub check_broker-FailsClosed :
      (now : Time) (today : ℕ) (broker : BrokerReadView F) (e : Engine F)
      → is_recon_due now e ≡ true
      → (reconcile e.core.pm.positions broker).ok ≡ false
      → let e' = check_broker now today broker e in
        ((later : Time) (sig : Signal F) (v : FeatureVector F)
          → Risk.approve sig v [] later e'.core.risk ≡ (false, kill_switch))
        × (((load_day today e'.core.risk2.ledger).halted ≡ true)
            ⊎ (e.core.risk2.ledger.unended ≡ true))
  unfolding check_broker fail_closed
  check_broker-FailsClosed now today broker e due mismatch =
      rw (due, mismatch)
        (λ later sig v. unfold Risk.approve in refl, halt_read today e.core.risk2.ledger)
