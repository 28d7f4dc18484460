-- ===== src/Orders.antt =====
-- execution/order_manager.py: the life of an order, and the dictionary of all orders. A method takes
-- the clock's reading as `now`; one that raises returns `err` with what it wrote before. `ended`
-- collects the calls of `on_terminal` in order, and `journal` the calls of `OrderJournal.record`.
-- The decision and outcome streams, which only report, are left out.
pub mod Methods
pub mod Evolution
pub mod Steps
pub mod Calls
pub mod Invariant
pub mod Creation
pub mod Runs
pub mod Fills
pub mod Samples
mod Tests
pub mod Timers
pub mod Absorption
pub mod Active
use liquidity_bot.Prelude.{
  ℕ, ◌+◌, ◌*◌, ◌^◌, ◌≡◌, refl, Bool, true, false, not, ◌&&◌, ◌||◌, Option, none, some, List, [],
  ◌∷◌, ◌++◌, arith, leb, ltb, ◌==◌, if◌then◌else◌, Dict, has_key, insert, contains,
}
use liquidity_bot.Float.{Float, ◌⊕◌, ◌⊖◌, ◌⊗◌, ◌⊘◌, lit, ratio, le, lt, max, abs}
use liquidity_bot.Models.{
  Symbol, Coid, Time, OrderRequest, Fill, OrderType, Intent, is_entry_intent,
}

pub data OState : Type 0 where
  new submitting acknowledged partial filled cancel_pending cancelled rejected expired : OState

-- `TERMINAL`
abbrev pub terminal : OState → Bool
terminal filled = true
terminal cancelled = true
terminal rejected = true
terminal expired = true
terminal _ = false

-- `_LEGAL`
abbrev pub legal : OState → OState → Bool
legal new submitting = true
legal new rejected = true
legal submitting acknowledged = true
legal submitting rejected = true
legal submitting partial = true
legal submitting filled = true
legal submitting expired = true
legal acknowledged partial = true
legal acknowledged filled = true
legal acknowledged cancel_pending = true
legal acknowledged rejected = true
legal acknowledged expired = true
legal partial partial = true
legal partial filled = true
legal partial cancel_pending = true
legal partial expired = true
legal cancel_pending cancelled = true
legal cancel_pending partial = true
legal cancel_pending filled = true
legal _ _ = false

abbrev pub is_submitting : OState → Bool
is_submitting submitting = true
is_submitting _ = false

abbrev pub is_partial : OState → Bool
is_partial partial = true
is_partial _ = false

abbrev pub is_filled : OState → Bool
is_filled filled = true
is_filled _ = false

abbrev pub is_cancel_pending : OState → Bool
is_cancel_pending cancel_pending = true
is_cancel_pending _ = false

-- `state in (ACKNOWLEDGED, PARTIAL)`
abbrev pub is_working : OState → Bool
is_working acknowledged = true
is_working partial = true
is_working _ = false

-- the `why` of a transition
pub data Event : Type 0 where
  created submit_sent venue_ack fill_complete fill_partial cancel_requested cancel_ack : Event
  ttl_expired ttl_no_ack : Event
  reject : ℕ → Event

pub data Error : Type 0 where
  illegal_transition : OState → OState → Error
  duplicate_coid active_entry_intent gross_notional key_error : Error

pub data Result (A : Type 0) : Type 0 where
  ok : A → Result A
  err : Error → Result A

pub record ManagedOrder (F : Type 0) : Type 0 where
  pub request : OrderRequest F
  pub state : OState
  pub filled_qty : F
  pub avg_fill_price : F
  pub reserved_risk_usd : F
  pub reserved_notional_usd : F
  pub created_at : Option Time
  pub activate_at : Option Time
  pub expire_at : Option Time
  pub revision : ℕ
  pub history : List (Time × OState)

-- the arguments of a call of `OrderJournal.record`
pub record JournalCall (F : Type 0) : Type 0 where
  pub event : Event
  pub request : OrderRequest F
  pub state : OState
  pub filled : F
  pub rev : ℕ

pub record OrderManager (F : Type 0) : Type 0 where
  pub max_gross_notional : F
  pub orders : Dict (ManagedOrder F)
  pub journal : List (JournalCall F)
  pub ended : List (ManagedOrder F)

abbrev pub Outcome : Type 0 → Type 0 → Type 0
Outcome F A = Result A × OrderManager F

module _ {F : Type 0} ⦃f : Float F⦄ where
  unfoldable pub remaining : ManagedOrder F → F
  unfolding max
  remaining o = max (lit 0) (o.request.quantity ⊖ o.filled_qty)

  -- `is_entry and state not in TERMINAL`
  abbrev pub is_active_entry : ManagedOrder F → Bool
  is_active_entry o = is_entry_intent o.request.intent && not (terminal o.state)

  -- `sum(...)` over the orders that are not terminal, from the left
  unfoldable pub sum_notional : F → Dict (ManagedOrder F) → F
  sum_notional acc [] = acc
  sum_notional acc ((_, o) ∷ d) =
      sum_notional (if terminal o.state then acc else acc ⊕ o.reserved_notional_usd) d

  unfoldable pub sum_risk : F → Dict (ManagedOrder F) → F
  sum_risk acc [] = acc
  sum_risk acc ((_, o) ∷ d) =
      sum_risk (if terminal o.state then acc else acc ⊕ o.reserved_risk_usd) d

  unfoldable pub reserved_notional : OrderManager F → F
  unfolding sum_notional
  reserved_notional om = sum_notional (lit 0) om.orders

  unfoldable pub reserved_risk : OrderManager F → F
  unfolding sum_risk
  reserved_risk om = sum_risk (lit 0) om.orders

  -- `active_entry_symbols`, with an entry for each order
  unfoldable pub active_entry_symbols : Dict (ManagedOrder F) → List Symbol
  active_entry_symbols [] = []
  active_entry_symbols ((_, o) ∷ d) =
      let rest = active_entry_symbols d in
      if is_active_entry o then o.request.symbol ∷ rest else rest

  unfoldable pub has_active_entry : Symbol → Dict (ManagedOrder F) → Bool
  unfolding active_entry_symbols
  has_active_entry s d = contains s (active_entry_symbols d)

  unfoldable pub active_orders : Dict (ManagedOrder F) → List (ManagedOrder F)
  active_orders [] = []
  active_orders ((_, o) ∷ d) =
      let rest = active_orders d in if terminal o.state then rest else o ∷ rest

  abbrev pub log_call : Event → ManagedOrder F → JournalCall F
  log_call e o = record {
    event = e;
    request = o.request;
    state = o.state;
    filled = o.filled_qty;
    rev = o.revision;
  }

  -- the new order of `create`
  unfoldable pub new_order : Time → OrderRequest F → F → F → Option ℕ → ℕ → ManagedOrder F
  new_order now req risk notional ttl_ms latency_ms = record {
    request = req;
    state = new;
    filled_qty = lit 0;
    avg_fill_price = lit 0;
    reserved_risk_usd = risk;
    reserved_notional_usd = notional;
    created_at = some now;
    activate_at = activation req.order_type;
    expire_at = elim ttl_ms [ none ↦ none | some ms ↦ some (now + ms * 1000) ];
    revision = 0;
    history = [];
  }
    where
      activation : OrderType → Option Time
      activation OrderType.market =
          if ltb 0 latency_ms then some (now + latency_ms * 1000) else none
      activation OrderType.limit = none

  unfoldable pub create :
      Time → OrderRequest F → F → F → Option ℕ → ℕ → OrderManager F → Outcome F (ManagedOrder F)
  unfolding new_order abs reserved_notional has_active_entry
  create now req ref_price risk ttl_ms latency_ms om =
      let notional = abs req.quantity ⊗ ref_price in
      let o = new_order now req risk notional ttl_ms latency_ms in
      if has_key req.client_order_id om.orders
      then (err duplicate_coid, om)
      else if is_entry_intent req.intent && has_active_entry req.symbol om.orders
      then (err active_entry_intent, om)
      else if lt om.max_gross_notional (reserved_notional om ⊕ notional)
      then (err gross_notional, om)
      else (
        ok o,
        record om {
          orders = insert req.client_order_id o om.orders;
          journal = om.journal ++ (log_call created o ∷ []);
        },
      )

  -- what `_transition` makes of the order when the move is legal
  unfoldable pub moved : Time → OState → ManagedOrder F → ManagedOrder F
  moved now to o =
      let o' = record o {
        state = to;
        revision = o.revision + 1;
        history = o.history ++ ((now, to) ∷ []);
      } in
      if terminal to
      then record o' { reserved_risk_usd = lit 0; reserved_notional_usd = lit 0 }
      else o'

  -- `_transition(o, to, why)`, where `o` is the order stored at `k` with what the caller wrote to it
  unfoldable pub transition :
      Time → Coid → ManagedOrder F → OState → Event → OrderManager F → Outcome F (Unit {0})
  unfolding moved
  transition now k o to why om =
      let o' = moved now to o in
      if legal o.state to
      then (
        ok tt,
        record om {
          orders = insert k o' om.orders;
          journal = om.journal ++ (log_call why o' ∷ []);
          ended = if terminal to then om.ended ++ (o' ∷ []) else om.ended;
        },
      )
      else (err (illegal_transition o.state to), record om { orders = insert k o om.orders })
