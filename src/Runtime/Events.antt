-- ===== src/Runtime/Events.antt =====
-- runtime.py: a session as the sequence of the handlers that the stream and the timer call. A handler
-- that raises leaves what it wrote, and the session goes on with the next.
use liquidity_bot.Prelude.{ℕ, Bool, List, [], ◌∷◌}
use liquidity_bot.Float.{Float, lit, ◌≼◌}
use liquidity_bot.Models.{Time, Quote, Trade, mid}
use liquidity_bot.Orders.{ok}
use liquidity_bot.Reconciler.{BrokerReadView}
use liquidity_bot.Runtime.{Engine, Run, View, Naming}
use liquidity_bot.Runtime.Loop.{on_tick, on_quote, on_trade, shutdown}

pub data Event (F : Type 0) : Type 0 where
  quote : Bool → View F → Quote F → Event F
  trade : Bool → Trade F → Event F
  tick : Event F
  stop : Bool → Event F

-- an event with the clock's time, the ledger's date and what the broker reads at it
pub record Occurrence (F : Type 0) : Type 0 where
  pub now : Time
  pub today : ℕ
  pub broker : BrokerReadView F
  pub event : Event F

module _ {F : Type 0} ⦃f : Float F⦄ where
  -- Quotes have a price that is not negative.
  abbrev pub IsPriced : Event F → Type 0
  IsPriced (quote is_new w q) = lit 0 ≼ mid q
  IsPriced _ = Unit {0}

module _ {F : Type 0} ⦃f : Float F⦄ (names : Naming) (pow : F → F → F) (random : ℕ → F) where
  unfoldable pub handle_event : Time → ℕ → BrokerReadView F → Event F → Engine F → Run F
  handle_event now today broker (quote is_new w q) e =
      on_quote names pow now today broker is_new w q e
  handle_event now today broker (trade is_new t) e = on_trade random now today broker is_new t e
  handle_event now today broker tick e = on_tick now today broker e
  handle_event now today broker (stop flatten) e = (ok tt, shutdown flatten e)

  unfoldable pub handle : Occurrence F → Engine F → Run F
  handle x e = handle_event x.now x.today x.broker x.event e

  unfoldable pub session : List (Occurrence F) → Engine F → Engine F
  session [] e = e
  session (x ∷ xs) e = session xs (handle x e).1
