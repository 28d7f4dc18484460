-- ===== src/Session.antt =====
-- runtime.py: how the session engine turns the venue's events into calls of the order manager, the
-- positions, both risk managers, the ledgers and the state machine. `now` is the clock's time and
-- `today` the ledger's date. The execution analytics, OUFS and the log only observe and are left out.
-- `om.on_terminal` is `_on_order_terminal`: the orders that a method of the order manager appends to
-- `ended` are handed to it when the method returns, which is the order of the code's effects, since
-- nothing between the callback and the return reads what it writes.
pub mod Completions
pub mod Partials
pub mod Evolution
pub mod Samples
mod Tests
use liquidity_bot.Prelude.{
  ℕ, ◌^◌, ◌≡◌, refl, Bool, true, false, not, ◌&&◌, Option, none, some, List, [], ◌∷◌, ◌++◌,
  if◌then◌else◌, Dict, lookup, has_key, get_or, insert, erase,
}
use liquidity_bot.Float.{Float, ratio, le}
use liquidity_bot.Models.{Symbol, Coid, Time, Fill, Signal, Position, is_entry_intent}
use liquidity_bot.Orders
use liquidity_bot.Orders.{
  OState, cancelled, expired, rejected, terminal, is_working, is_cancel_pending, ManagedOrder,
  OrderManager, Result, ok, err, key_error, Outcome,
}
use liquidity_bot.Orders.Methods
use liquidity_bot.Orders.Methods.{found, on_ack, on_reject, request_cancel, on_cancel_ack}
use liquidity_bot.Fsm.{FsmConfig, Track, on_track, on_entry_failed, on_position_closed}
use liquidity_bot.Fsm
use liquidity_bot.Risk
use liquidity_bot.Risk.{RiskManager}
use liquidity_bot.Portfolio
use liquidity_bot.Portfolio.{PortfolioRisk}
use liquidity_bot.Ledger.{append, trade_closed}
use liquidity_bot.Ledger.PositionLog.{PositionEventLog, entry, exit, append_fill}
use liquidity_bot.Positions.{
  PositionManager, ExitReason, unnamed, ClosedTrade, on_entry_fill, on_exit_fill,
}

pub data VenueEvent (F : Type 0) : Type 0 where
  ack cancel_ack : Coid → VenueEvent F
  reject : Coid → ℕ → VenueEvent F
  fill : Fill F → VenueEvent F

pub record SessionEngine (F : Type 0) : Type 0 where
  pub om : OrderManager F
  pub pm : PositionManager F
  pub risk : RiskManager F
  pub risk2 : PortfolioRisk F
  pub fsm : FsmConfig F
  pub tracks : Dict (Track F)
  pub pos_log : PositionEventLog F
  pub pending_sig : Dict (Signal F)
  pub pending_exit : Dict ExitReason

-- a method that may raise, and the engine it leaves behind
abbrev pub Step : Type 0 → Type 0
Step F = Result (Unit {0}) × SessionEngine F

-- the states of the test in `_on_order_terminal`
abbrev pub is_unfilled_end : OState → Bool
is_unfilled_end cancelled = true
is_unfilled_end expired = true
is_unfilled_end rejected = true
is_unfilled_end _ = false

module _ {F : Type 0} ⦃f : Float F⦄ where
  -- the first `if` of `_on_order_terminal`
  unfoldable pub entry_failed : Time → ManagedOrder F → SessionEngine F → SessionEngine F
  entry_failed now o e =
      let s = o.request.symbol in
      let failed = on_track e.fsm s (on_entry_failed e.fsm now) e.tracks in
      if is_entry_intent o.request.intent
        && le o.filled_qty (ratio 1 (10 ^ 9))
        && is_unfilled_end o.state
      then record e { tracks = failed }
      else e

  unfoldable pub on_order_terminal : Time → ManagedOrder F → SessionEngine F → SessionEngine F
  on_order_terminal now o e =
      let e' = entry_failed now o e in
      record e' {
        pending_sig = erase o.request.client_order_id e'.pending_sig;
        pending_exit = erase o.request.client_order_id e'.pending_exit;
      }

  unfoldable pub tell_all : Time → List (ManagedOrder F) → SessionEngine F → SessionEngine F
  tell_all now [] e = e
  tell_all now (o ∷ os) e = tell_all now os (on_order_terminal now o e)

  -- the orders that a call has ended, told one by one
  unfoldable pub tell_ended : Time → SessionEngine F → SessionEngine F
  tell_ended now e = tell_all now e.om.ended (record e { om = record e.om { ended = [] } })

  -- `_on_fill` with an entry order and the signal that is pending for it. The risk manager's table
  -- holds the same position object.
  unfoldable pub enter : Fill F → Signal F → SessionEngine F → SessionEngine F
  enter fl sig e =
      let pm = on_entry_fill fl sig e.pm in
      let held =
        found (lookup fl.symbol pm.positions) e.risk.positions
          (λ pos. insert fl.symbol pos e.risk.positions) in
      record e {
        pm = pm;
        risk = record e.risk { positions = held };
        pos_log = append_fill (entry fl sig) e.pos_log;
        tracks = on_track e.fsm fl.symbol (Fsm.on_entry_fill e.fsm fl.ts) e.tracks;
      }

  -- `_on_fill` when an exit fill has closed the position
  unfoldable pub book_trade : Time → ℕ → ClosedTrade F → SessionEngine F → SessionEngine F
  book_trade now today t e =
      let risk2 = Portfolio.on_trade_closed today t.pnl e.risk2 in
      record e {
        risk = Risk.on_trade_closed t.symbol t.pnl now e.risk;
        risk2 = record risk2 { ledger = append today (trade_closed t.pnl) risk2.ledger };
        tracks = on_track e.fsm t.symbol (on_position_closed e.fsm now) e.tracks;
      }

  -- a position that is still open is the risk manager's too
  unfoldable pub share : Symbol → SessionEngine F → SessionEngine F
  share s e = found (lookup s e.pm.positions) e λ pos.
      if has_key s e.risk.positions
      then record e { risk = record e.risk { positions = insert s pos e.risk.positions } }
      else e

  -- `_on_fill` with an order that exits; "exit" is the reason where none is pending
  unfoldable pub leave : Time → ℕ → Fill F → SessionEngine F → SessionEngine F
  unfolding share book_trade
  leave now today fl e =
      let reason = get_or fl.client_order_id unnamed e.pending_exit in
      let (pm, closed) = on_exit_fill fl reason e.pm in
      let e' = record e { pm = pm; pos_log = append_fill (exit fl) e.pos_log } in
      found closed (share fl.symbol e') (λ t. book_trade now today t e')

  -- `_on_fill` after the order manager has returned the order
  unfoldable pub attribute : Time → ℕ → Fill F → ManagedOrder F → SessionEngine F → SessionEngine F
  attribute now today fl o e =
      if is_entry_intent o.request.intent
      then found (lookup fl.client_order_id e.pending_sig) e (λ sig. enter fl sig e)
      else leave now today fl e

  -- what a call of the order manager leaves, with the callbacks made
  unfoldable pub called : Time → Outcome F (Unit {0}) → SessionEngine F → Step F
  called now (r, om) e = (r, tell_ended now (record e { om = om }))

  unfoldable pub attributed : Time → ℕ → Fill F → Step F → Step F
  attributed now today fl (ok _, e) =
      found (lookup fl.client_order_id e.om.orders) (err key_error, e)
        λ o. (ok tt, attribute now today fl o e)
  attributed now today fl (err x, e) = (err x, e)

  unfoldable pub on_fill : Time → ℕ → Fill F → SessionEngine F → Step F
  on_fill now today fl e = attributed now today fl (called now (Methods.on_fill now fl e.om) e)

  -- a call whose answer is not used
  unfoldable pub forget : Time → Outcome F Bool → SessionEngine F → Step F
  forget now (ok _, om) e = called now (ok tt, om) e
  forget now (err x, om) e = called now (err x, om) e

  -- the request that `_apply_venue_events` makes for a cancel that the venue made by itself
  unfoldable pub requested : Time → Coid → SessionEngine F → Step F
  requested now k e =
      found (lookup k e.om.orders) (ok tt, e)
        λ o. if is_working o.state then forget now (request_cancel now k e.om) e else (ok tt, e)

  unfoldable pub then_ack : Time → Coid → Step F → Step F
  then_ack now k (ok _, e) = called now (on_cancel_ack now k e.om) e
  then_ack now k (err x, e) = (err x, e)

  unfoldable pub apply_event : Time → ℕ → VenueEvent F → SessionEngine F → Step F
  apply_event now today (ack k) e = called now (on_ack now k e.om) e
  apply_event now today (cancel_ack k) e = then_ack now k (requested now k e)
  apply_event now today (reject k reason) e = called now (on_reject now k reason e.om) e
  apply_event now today (fill x) e = on_fill now today x e

  unfoldable pub proceed : Step F → (SessionEngine F → Step F) → Step F
  proceed (ok _, e) rest = rest e
  proceed (err x, e) rest = (err x, e)

  -- `_apply_venue_events`: an exception ends the loop.
  unfoldable pub apply_venue_events : Time → ℕ → List (VenueEvent F) → SessionEngine F → Step F
  unfolding proceed
  apply_venue_events now today [] e = (ok tt, e)
  apply_venue_events now today (ev ∷ evs) e =
      proceed (apply_event now today ev e) (apply_venue_events now today evs)
