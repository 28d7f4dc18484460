-- ===== src/Journal/Tests.antt =====
-- A file of one order and a spoiled line, and a day's use of it.
use liquidity_bot.Prelude.{◌≡◌, refl, sym, false, none, some, List, [], ◌∷◌}
use liquidity_bot.Float.Fixed.{ℤ, num}
use liquidity_bot.Orders.{new, acknowledged}
use liquidity_bot.Orders.Samples.{request}
use liquidity_bot.Journal.{
  Text, contains_text, Row, emit, pad4, client_order_id, open_journal, next_client_order_id,
  is_duplicate,
}
use liquidity_bot.LogFile.{LogFile}
use liquidity_bot.Journal.Reading.{ids}
use liquidity_bot.Journal.Ids.{seq_parts-client_order_id}
use liquidity_bot.Journal.Freshness.{
  Op, issues, draws, updates, restarts, perform_all, next_id-IsFresh,
}

-- the key of an entry in symbol A: the date 2026-01-02 holds dashes
abbrev key : Text
key =
    b'2' ∷ b'0' ∷ b'2' ∷ b'6' ∷ b'-' ∷ b'0' ∷ b'1' ∷ b'-' ∷ b'0' ∷ b'2' ∷ b'-' ∷ b'A' ∷ b'-' ∷ b'e'
    ∷ b'n' ∷ b't' ∷ b'r' ∷ b'y' ∷ []

padded : pad4 42 ≡ b'0' ∷ b'0' ∷ b'4' ∷ b'2' ∷ []
unfolding pad4 emit
padded = refl

abbrev row : Row ℤ
row = record {
  id = client_order_id key 1;
  seq_key = some key;
  seq = 1;
  request = request;
  status = new;
  filled = num 0 1;
}

-- its second line is no JSON
abbrev file : LogFile (Row ℤ)
file = record { lines = some row ∷ none ∷ []; unended = false }

abbrev ops : List (Op ℤ)
ops =
    issues key request new (num 0 1)
    ∷ draws key
    ∷ restarts
    ∷ updates (client_order_id key 2) request acknowledged (num 0 1)
    ∷ []

next_id-IsFresh_example :
    let (j, known) = perform_all ops (open_journal file, ids file.lines) in
    let id = (next_client_order_id key j).0 in
    (contains_text id known ≡ false) × (is_duplicate id j ≡ false)
next_id-IsFresh_example =
    next_id-IsFresh file ops key refl (sym (seq_parts-client_order_id key 1), tt)
