-- ===== src/Ledger.antt =====
-- execution/ledger.py: the risk ledger, a file of rows to which each day's results are appended. A
-- number written as JSON is read back unchanged.
pub mod PositionLog
pub mod Refinement
pub mod Recovery
pub mod OpenOrders
mod Tests
use liquidity_bot.Prelude.{
  ℕ, ◌+◌, ◌≡◌, refl, ap, ◌∙◌, Bool, ==_iff, true, false, Option, none, some, List, [], ◌∷◌, ◌++◌,
  ◌==◌, if◌then◌else◌,
}
use liquidity_bot.LogFile.{LogFile, append_row, append_row-lines, append_row-ended}
use liquidity_bot.Float.{Float, ◌⊕◌, lit, lt}

-- what a row records; other kinds are not read
pub data Kind (F : Type 0) : Type 0 where
  trade_closed : F → Kind F
  halt halt_cleared other : Kind F

pub record Row (F : Type 0) : Type 0 where
  pub date : ℕ
  pub kind : Kind F

abbrev pub RiskLedger : Type 0 → Type 0
RiskLedger F = LogFile (Row F)

pub record DayState (F : Type 0) : Type 0 where
  pub realized_pnl : F
  pub consecutive_losses : ℕ
  pub n_trades : ℕ
  pub halted : Bool

module _ {F : Type 0} ⦃f : Float F⦄ where
  unfoldable pub append : ℕ → Kind F → RiskLedger F → RiskLedger F
  append today kind file = append_row (record { date = today; kind = kind }) file

  unfoldable pub new_day : DayState F
  new_day = record { realized_pnl = lit 0; consecutive_losses = 0; n_trades = 0; halted = false }

  -- the rows of one kind in the loop of `load_day`
  unfoldable pub read_kind : Kind F → DayState F → DayState F
  read_kind (trade_closed pnl) s = record s {
    realized_pnl = s.realized_pnl ⊕ pnl;
    n_trades = s.n_trades + 1;
    consecutive_losses = if lt (lit 0) pnl then 0 else s.consecutive_losses + 1;
  }
  read_kind halt s = record s { halted = true }
  read_kind halt_cleared s = record s { halted = false }
  read_kind other s = s

  unfoldable pub read_row : ℕ → Option (Row F) → DayState F → DayState F
  unfolding read_kind
  read_row day none s = s
  read_row day (some row) s = if row.date == day then read_kind row.kind s else s

  unfoldable pub load_from : ℕ → List (Option (Row F)) → DayState F → DayState F
  load_from day [] s = s
  load_from day (row ∷ rows) s = load_from day rows (read_row day row s)

  unfoldable pub load_day : ℕ → RiskLedger F → DayState F
  load_day day file = load_from day file.lines new_day

  load_from-append :
      (day : ℕ) (rows more : List (Option (Row F))) (s : DayState F)
      → load_from day (rows ++ more) s ≡ load_from day more (load_from day rows s)
  unfolding load_from
  load_from-append day [] more s = refl
  load_from-append day (row ∷ rows) more s = load_from-append day rows more (read_row day row s)

  read_row-today :
      (today : ℕ) (kind : Kind F) (s : DayState F)
      → read_row today (some (record { date = today; kind = kind })) s ≡ read_kind kind s
  unfolding read_row
  read_row-today today kind s = rw ((==_iff today today).1 refl)

  -- Reading a day whose last row has been appended to a file that ends with a newline is reading the
  -- rest, and then that row.
  pub load_day-append :
      (today : ℕ) (kind : Kind F) (file : RiskLedger F)
      → file.unended ≡ false
      → load_day today (append today kind file) ≡ read_kind kind (load_day today file)
  unfolding load_day append load_from
  load_day-append today kind file ended =
      let row : Row F = record { date = today; kind = kind } in
      ap (λ rows. load_from today rows new_day) (append_row-lines row file ended)
      ∙ load_from-append today file.lines (some row ∷ []) new_day
      ∙ read_row-today today kind (load_from today file.lines new_day)

  pub append-ended :
      (today : ℕ) (kind : Kind F) (file : RiskLedger F) → (append today kind file).unended ≡ false
  unfolding append
  append-ended today kind file = append_row-ended _ file
