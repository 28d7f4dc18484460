-- ===== src/Positions.antt =====
-- execution/positions.py: the open positions, the exit rules and the accounts of partial exits.
pub mod Exits
pub mod Accounts
pub mod Tallies
mod Tests
use liquidity_bot.Prelude.{
  ℕ, ◌+◌, ◌*◌, ◌^◌, ◌≡◌, refl, Bool, true, false, not, ◌&&◌, ◌||◌, Option, none, some, List, [],
  ◌∷◌, ◌++◌, ltb, leb, if◌then◌else◌, Dict, lookup, get_or, insert, erase,
}
use liquidity_bot.Float.{Float, ◌⊕◌, ◌⊖◌, ◌⊗◌, ◌⊘◌, lit, ratio, le, lt, neg, min, max}
use liquidity_bot.Models.{
  Symbol, Time, Side, buy, sell, opposite, is_buy, GovernorAction, reversal, Quote, Signal, Fill,
  Position, signed, mid, spread_bps, update_excursions,
}
use liquidity_bot.Models.Features.{FeatureVector}

pub data ExitReason : Type 0 where
  emergency_flatten hard_stop target time_stop spread_deterioration adverse_microprice : ExitReason
  impact_resumed peer_invalidation unnamed : ExitReason

pub record ExitInstruction (F : Type 0) : Type 0 where
  pub symbol : Symbol
  pub side : Side
  pub quantity : F
  pub reason : ExitReason
  pub trace_id : ℕ

pub record ClosedTrade (F : Type 0) : Type 0 where
  pub symbol : Symbol
  pub side : Side
  pub quantity : F
  pub entry_price : F
  pub exit_price : F
  pub opened_at : Time
  pub closed_at : Time
  pub pnl : F
  pub exit_reason : ExitReason
  pub trace_id : ℕ
  pub signal_score : F
  pub action : GovernorAction
  pub max_favorable : F
  pub max_adverse : F

pub record PositionManager (F : Type 0) : Type 0 where
  pub max_spread_bps_exit : F
  pub adverse_micro_bps : F
  pub adverse_micro_persist : ℕ
  pub closed : List (ClosedTrade F)
  pub positions : Dict (Position F)
  pub micro_adverse_count : Dict ℕ
  pub emergency : Bool

abbrev pub is_reversal : GovernorAction → Bool
is_reversal reversal = true
is_reversal _ = false

-- a method on the position that a symbol finds
abbrev pub found {ℓ κ} : {P : Type ℓ} {A : Type κ} → Option P → A → (P → A) → A
found none absent present = absent
found (some p) absent present = present p

-- the first rule that applies, or else the rules after it
infixr 30 ◌or_else◌
abbrev pub ◌or_else◌ {ℓ} : {A : Type ℓ} → Option A → Option A → Option A
none or_else r = r
(some a) or_else r = some a

abbrev pub when {ℓ} : {A : Type ℓ} → Bool → A → Option A
when true a = some a
when false a = none

module _ {F : Type 0} ⦃f : Float F⦄ where
  -- the new position of a symbol's first entry fill
  unfoldable pub opened : Fill F → Signal F → Position F
  opened fill s = record {
    symbol = fill.symbol;
    side = fill.side;
    quantity = fill.quantity;
    entry_price = fill.price;
    opened_at = fill.ts;
    stop_price = s.stop_price;
    target_price = s.target_price;
    signal_score = s.score;
    trace_id = s.trace_id;
    action = s.action;
    max_favorable = lit 0;
    max_adverse = lit 0;
    realized_pnl = lit 0;
    exited_qty = lit 0;
    exit_notional = lit 0;
  }

  unfoldable pub enlarged : Fill F → Position F → Position F
  enlarged fill pos =
      let total = pos.quantity ⊕ fill.quantity in
      record pos {
        entry_price = (pos.entry_price ⊗ pos.quantity ⊕ fill.price ⊗ fill.quantity) ⊘ total;
        quantity = total;
      }

  unfoldable pub on_entry_fill : Fill F → Signal F → PositionManager F → PositionManager F
  on_entry_fill fill s pm = record pm {
    positions =
        insert fill.symbol (found (lookup fill.symbol pm.positions) (opened fill s) (enlarged fill))
          pm.positions;
  }

  -- the exits that need only the price, in order
  unfoldable pub price_exit :
      Quote F → Time → ℕ → PositionManager F → Position F → Option ExitReason
  price_exit q now max_holding_seconds pm pos =
      let mark = mid q in
      when pm.emergency emergency_flatten
      or_else when (is_buy pos.side && le mark pos.stop_price) hard_stop
      or_else when (not (is_buy pos.side) && le pos.stop_price mark) hard_stop
      or_else when (is_buy pos.side && le pos.target_price mark) target
      or_else when (not (is_buy pos.side) && le mark pos.target_price) target
      or_else when (ltb (pos.opened_at + max_holding_seconds * 1_000_000) now) time_stop
      or_else when (lt pm.max_spread_bps_exit (spread_bps q)) spread_deterioration

  -- `-pos.side.sign * x`
  unfoldable pub against : Side → F → F
  against s x = signed (opposite s) x

  -- the exits of a reversal whose move goes on
  unfoldable pub resumed_exit : FeatureVector F → Position F → Option ExitReason
  resumed_exit v pos =
      when
        (is_reversal pos.action
          && (lt v.impact_decay (neg (ratio 3 10))
              && lt (ratio 2 10) (against pos.side v.flow_imbalance)))
        impact_resumed
      or_else when
          (is_reversal pos.action && lt (ratio 6 10) (against pos.side v.peer_confirmation))
          peer_invalidation

  -- the new count of adverse microprices in a row
  unfoldable pub micro_count : FeatureVector F → PositionManager F → Position F → ℕ
  micro_count v pm pos =
      if lt pm.adverse_micro_bps (against pos.side v.microprice_bps)
      then get_or pos.symbol 0 pm.micro_adverse_count + 1
      else 0

  unfoldable pub feature_exit : FeatureVector F → PositionManager F → Position F → Option ExitReason
  feature_exit v pm pos =
      when
        (lt pm.adverse_micro_bps (against pos.side v.microprice_bps)
          && leb pm.adverse_micro_persist (micro_count v pm pos))
        adverse_microprice
      or_else resumed_exit v pos

  abbrev pub instruction : Position F → ExitReason → ExitInstruction F
  instruction pos r = record {
    symbol = pos.symbol;
    side = opposite pos.side;
    quantity = pos.quantity;
    reason = r;
    trace_id = pos.trace_id;
  }

  -- the rules after those on the price; the count is kept by symbol
  unfoldable pub check_features :
      Option (FeatureVector F)
      → PositionManager F
      → Position F
      → PositionManager F × Option (ExitInstruction F)
  check_features none pm pos = (pm, none)
  check_features (some v) pm pos = (
    record pm {
      micro_adverse_count = insert pos.symbol (micro_count v pm pos) pm.micro_adverse_count;
    },
    found (feature_exit v pm pos) none λ r. some (instruction pos r),
  )

  unfoldable pub check_position :
      Quote F
      → Option (FeatureVector F)
      → Time
      → ℕ
      → PositionManager F
      → Position F
      → PositionManager F × Option (ExitInstruction F)
  check_position q feature now max_holding_seconds pm pos =
      found (price_exit q now max_holding_seconds pm pos) (check_features feature pm pos)
        λ r. (pm, some (instruction pos r))

  unfoldable pub check_exits :
      Quote F
      → Option (FeatureVector F)
      → Time
      → ℕ
      → PositionManager F
      → PositionManager F × Option (ExitInstruction F)
  check_exits q feature now max_holding_seconds pm =
      found (lookup q.symbol pm.positions) (pm, none)
        λ pos.
          let pos' = update_excursions (mid q) pos in
          check_position q feature now max_holding_seconds
            (record pm { positions = insert q.symbol pos' pm.positions }) pos'

  -- what an exit fill makes of the position
  unfoldable pub reduced : Fill F → Position F → Position F
  unfolding min signed
  reduced fill pos =
      let qty = min fill.quantity pos.quantity in
      record pos {
        realized_pnl = pos.realized_pnl ⊕ signed pos.side (fill.price ⊖ pos.entry_price) ⊗ qty;
        exited_qty = pos.exited_qty ⊕ qty;
        exit_notional = pos.exit_notional ⊕ qty ⊗ fill.price;
        quantity = pos.quantity ⊖ qty;
      }

  unfoldable pub closed_trade : Fill F → ExitReason → Position F → ClosedTrade F
  closed_trade fill reason pos = record {
    symbol = pos.symbol;
    side = pos.side;
    quantity = pos.exited_qty;
    entry_price = pos.entry_price;
    exit_price = pos.exit_notional ⊘ max pos.exited_qty (ratio 1 (10 ^ 12));
    opened_at = pos.opened_at;
    closed_at = fill.ts;
    pnl = pos.realized_pnl;
    exit_reason = reason;
    trace_id = pos.trace_id;
    signal_score = pos.signal_score;
    action = pos.action;
    max_favorable = pos.max_favorable;
    max_adverse = pos.max_adverse;
  }

  -- `pos.quantity > 1e-9`
  abbrev pub is_open : Position F → Bool
  is_open pos = lt (ratio 1 (10 ^ 9)) pos.quantity

  unfoldable pub settle_exit :
      Fill F
      → ExitReason
      → PositionManager F
      → Position F
      → PositionManager F × Option (ClosedTrade F)
  settle_exit fill reason pm pos =
      let trade = closed_trade fill reason pos in
      if is_open pos
      then (record pm { positions = insert fill.symbol pos pm.positions }, none)
      else (
        record pm {
          closed = pm.closed ++ (trade ∷ []);
          positions = erase fill.symbol pm.positions;
          micro_adverse_count = erase fill.symbol pm.micro_adverse_count;
        },
        some trade,
      )

  unfoldable pub on_exit_fill :
      Fill F → ExitReason → PositionManager F → PositionManager F × Option (ClosedTrade F)
  on_exit_fill fill reason pm =
      found (lookup fill.symbol pm.positions) (pm, none)
        λ pos. settle_exit fill reason pm (reduced fill pos)
