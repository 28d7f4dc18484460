-- ===== src/Runtime.antt =====
-- runtime.py: the session engine around `Session`: the recovery, the periodic work, the handlers of
-- market data and the decision core. What the parts that are not modelled here answer is an argument:
-- the feature vector, the anomaly flags and the sector's return, the data quality's verdict on a
-- duplicate, and the broker's reads. In live mode the calls of the adapter are recorded in `sent` and
-- `cancels`; that they may raise is left out, as are the recorders, the execution analytics, OUFS, the
-- feature store and the log, which only observe. `on_depth` and `on_noii` only feed the features.
pub mod Submit
pub mod Loop
pub mod Steps
pub mod Events
pub mod Invariant
pub mod Traversal
pub mod Decisions
pub mod Reservations
pub mod Calm
pub mod KillSwitch
pub mod Exits
pub mod Recovery
mod Tests
use liquidity_bot.Prelude.{
  ℕ, ◌≡◌, Bool, true, false, not, ◌&&◌, ◌||◌, Option, none, some, List, [], ◌∷◌, ◌++◌, ◌==◌,
  if◌then◌else◌, Dict,
}
use liquidity_bot.Float.{Float}
use liquidity_bot.Models.{Symbol, Coid, Time, OrderRequest}
use liquidity_bot.Models.Features.{FeatureVector}
use liquidity_bot.Config.{StrategyConfig}
use liquidity_bot.Orders.{Result, ok, err, JournalCall}
use liquidity_bot.Governor.{StrategyGovernor}
use liquidity_bot.Journal.{Text, OrderJournal, is_duplicate}
use liquidity_bot.Fsm.{on_track, on_entry_failed}
use liquidity_bot.Venue.{PaperVenue}
use liquidity_bot.Session.{SessionEngine, Step}

-- the settings that the engine itself reads
pub record Settings (F : Type 0) : Type 0 where
  pub strategy : StrategyConfig F
  pub symbols : List Symbol
  pub signal_interval_ms : ℕ
  pub min_data_confidence : F
  pub reconcile_interval_s : ℕ
  pub risk_per_trade_usd : F
  pub latency_ms : ℕ

pub record Engine (F : Type 0) : Type 0 where
  pub s : Settings F
  pub live : Bool
  pub core : SessionEngine F
  pub journal : OrderJournal F
  pub venue : PaperVenue F
  pub governor : StrategyGovernor F
  pub trade_rate : Dict F
  pub last_recon : Option Time
  pub last_eval : Dict Time
  pub emergency : Bool
  pub sent : List (OrderRequest F)
  pub cancels : List Coid

-- a method that may raise, and the engine it leaves behind
abbrev pub Run : Type 0 → Type 0
Run F = Result (Unit {0}) × Engine F

-- what the parts outside the model answer in an evaluation
pub record View (F : Type 0) : Type 0 where
  pub features : Option (FeatureVector F)
  pub anomalous : Bool
  pub sector_return : F
  pub trace : ℕ

-- how the texts of an id are written: the date and the symbol, and an id's number in the model
pub record Naming : Type 0 where
  pub date_text : Time → Text
  pub symbol_text : Symbol → Text
  pub coid_of : Text → Coid

abbrev pub entry_text : Text
entry_text = b'e' ∷ b'n' ∷ b't' ∷ b'r' ∷ b'y' ∷ []

abbrev pub exit_text : Text
exit_text = b'e' ∷ b'x' ∷ b'i' ∷ b't' ∷ []

module _ {F : Type 0} where
  -- The order manager records its orders in the same journal.
  unfoldable pub has_call : Coid → List (JournalCall F) → Bool
  has_call k [] = false
  has_call k (c ∷ cs) = c.request.client_order_id == k || has_call k cs

  unfoldable pub in_core : Step F → Engine F → Run F
  in_core (r, core) e = (r, record e { core = core })

  unfoldable pub and_then : Run F → (Engine F → Run F) → Run F
  and_then (ok _, e) rest = rest e
  and_then (err x, e) rest = (err x, e)

  -- `self.journal.is_duplicate(coid)`
  unfoldable pub is_known : Naming → Text → Engine F → Bool
  unfolding is_duplicate
  is_known names id e = is_duplicate id e.journal || has_call (names.coid_of id) e.core.om.journal

module _ {F : Type 0} ⦃f : Float F⦄ where
  -- `self.fsm.on_entry_failed(symbol, now)`
  unfoldable pub fail_entry : Time → Symbol → Engine F → Engine F
  fail_entry now symbol e = record e {
    core = record e.core {
      tracks = on_track e.core.fsm symbol (on_entry_failed e.core.fsm now) e.core.tracks;
    };
  }
