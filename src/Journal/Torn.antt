-- ===== src/Journal/Torn.antt =====
-- core/journal.py: the id of an order that is recorded after a torn write, once the program restarts.
use liquidity_bot.Prelude.{◌≡◌, refl, ap, ◌∙◌, true, Option, none, some, List, [], ◌∷◌, ◌++◌}
use liquidity_bot.LogFile.{LogFile, append_row-torn}
use liquidity_bot.Models.{OrderRequest}
use liquidity_bot.Orders.{OState}
use liquidity_bot.Journal.{
  Text, Row, OrderJournal, load_row, load_rows, open_journal, next_client_order_id, row_of,
  record_order,
}
use liquidity_bot.Journal.Reading.{load_rows-path}

module _ {F : Type 0} where
  load_rows-elsewhere :
      (rows : List (Option (Row F))) (j : OrderJournal F) (path : LogFile (Row F))
      → load_rows rows (record j { path = path }) ≡ record (load_rows rows j) { path = path }
  unfolding load_rows load_row
  load_rows-elsewhere [] j path = refl
  load_rows-elsewhere (none ∷ rows) j path = load_rows-elsewhere rows j path
  load_rows-elsewhere (some r ∷ rows) j path = load_rows-elsewhere rows (load_row r j) path

  -- Opening a file reads nothing but its lines.
  open_journal-elsewhere :
      (old new : LogFile (Row F))
      → new.lines ≡ old.lines
      → open_journal new ≡ record (open_journal old) { path = new }
  unfolding open_journal
  open_journal-elsewhere old new same =
      ap (λ rows. load_rows rows (record { path = new; seen = []; seq = [] })) same
      ∙ load_rows-elsewhere old.lines (record { path = old; seen = []; seq = [] }) new

  -- On a file whose last line is torn, without a newline, the row of the next order is lost: opened
  -- again after it has been recorded, the journal has not seen its id and gives out the same one.
  pub torn-reissues :
      (rows : List (Option (Row F))) (key : Text) (request : OrderRequest F) (status : OState)
      (filled : F)
      → let file : LogFile (Row F) = record { lines = rows ++ (none ∷ []); unended = true } in
        let (id, j) = next_client_order_id key (open_journal file) in
        let again = open_journal (record_order id request status filled j).path in
        ((next_client_order_id key again).0 ≡ id) × (again.seen ≡ (open_journal file).seen)
  unfolding next_client_order_id
  torn-reissues rows key request status filled =
      let file : LogFile (Row F) = record { lines = rows ++ (none ∷ []); unended = true } in
      let (id, j) = next_client_order_id key (open_journal file) in
      let later = (record_order id request status filled j).path in
      let lines : later.lines ≡ file.lines =
        unfold record_order open_journal in
        rw (load_rows-path file.lines (record { path = file; seen = []; seq = [] }))
          (append_row-torn (row_of id request status filled) rows) in
      rw (open_journal-elsewhere file later lines) (refl, refl)
