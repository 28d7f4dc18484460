-- ===== src/Ledger/PositionLog.antt =====
-- execution/ledger.py: the log of position fills, and the positions that are rebuilt from it. Times
-- and numbers written as JSON are read back unchanged.
use liquidity_bot.Prelude.{
  ℕ, ◌^◌, ◌&&◌, Option, none, some, List, [], ◌∷◌, if◌then◌else◌, Dict, lookup, insert, erase,
}
use liquidity_bot.LogFile.{LogFile, append_row}
use liquidity_bot.Float.{Float, ◌⊕◌, ◌⊖◌, ◌⊗◌, ◌⊘◌, lit, ratio, le, max}
use liquidity_bot.Models.{Time, Side, GovernorAction, Signal, Fill, Position}

-- a row: an entry carries the signal's stop, target and action
pub data PositionEvent (F : Type 0) : Type 0 where
  entry : Fill F → Signal F → PositionEvent F
  exit : Fill F → PositionEvent F

abbrev pub PositionEventLog : Type 0 → Type 0
PositionEventLog F = LogFile (PositionEvent F)

-- an item of `book`
pub record Book (F : Type 0) : Type 0 where
  pub side : Side
  pub qty : F
  pub cost : F
  pub ts : Time
  pub trace : ℕ
  pub stop : F
  pub tgt : F
  pub action : GovernorAction

abbrev pub found {ℓ κ} : {B : Type ℓ} {A : Type κ} → Option B → A → (B → A) → A
found none absent present = absent
found (some b) absent present = present b

module _ {F : Type 0} ⦃f : Float F⦄ where
  unfoldable pub append_fill : PositionEvent F → PositionEventLog F → PositionEventLog F
  append_fill event log = append_row event log

  -- the default of `book.setdefault`
  unfoldable pub new_book : Fill F → Signal F → Book F
  new_book fill sig = record {
    side = fill.side;
    qty = lit 0;
    cost = lit 0;
    ts = fill.ts;
    trace = fill.trace_id;
    stop = sig.stop_price;
    tgt = sig.target_price;
    action = sig.action;
  }

  unfoldable pub book_entry : Fill F → Book F → Book F
  book_entry fill b = record b {
    qty = b.qty ⊕ fill.quantity;
    cost = b.cost ⊕ fill.quantity ⊗ fill.price;
  }

  -- the average price of a book
  unfoldable pub average : Book F → F
  unfolding max
  average b = b.cost ⊘ max b.qty (ratio 1 (10 ^ 12))

  unfoldable pub book_exit : Fill F → Book F → Book F
  unfolding average
  book_exit fill b = record b {
    qty = b.qty ⊖ fill.quantity;
    cost = b.cost ⊖ fill.quantity ⊗ average b;
  }

  unfoldable pub net : PositionEvent F → Dict (Book F) → Dict (Book F)
  net (entry fill sig) book =
      insert fill.symbol
        (found (lookup fill.symbol book) (book_entry fill (new_book fill sig)) (book_entry fill))
        book
  net (exit fill) book = found (lookup fill.symbol book) book λ b.
      let b' = book_exit fill b in
      if le b'.qty (ratio 1 (10 ^ 9)) then erase fill.symbol book else insert fill.symbol b' book

  unfoldable pub net_all : List (Option (PositionEvent F)) → Dict (Book F) → Dict (Book F)
  unfolding net
  net_all [] book = book
  net_all (none ∷ rows) book = net_all rows book
  net_all (some event ∷ rows) book = net_all rows (net event book)

  -- `x if x else avg`: Python takes zero for false.
  abbrev pub or_average : F → F → F
  or_average x avg = if le x (lit 0) && le (lit 0) x then avg else x

  unfoldable pub rebuilt : ℕ → Book F → Position F
  unfolding average
  rebuilt s b = record {
    symbol = s;
    side = b.side;
    quantity = b.qty;
    entry_price = average b;
    opened_at = b.ts;
    stop_price = or_average b.stop (average b);
    target_price = or_average b.tgt (average b);
    signal_score = lit 0;
    trace_id = b.trace;
    action = b.action;
    max_favorable = lit 0;
    max_adverse = lit 0;
    realized_pnl = lit 0;
    exited_qty = lit 0;
    exit_notional = lit 0;
  }

  unfoldable pub rebuild_all : Dict (Book F) → Dict (Position F)
  rebuild_all [] = []
  rebuild_all ((s, b) ∷ d) = (s, rebuilt s b) ∷ rebuild_all d

  unfoldable pub rebuild_positions : PositionEventLog F → Dict (Position F)
  rebuild_positions log = rebuild_all (net_all log.lines [])
