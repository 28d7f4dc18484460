-- ===== src/Journal.antt =====
-- core/journal.py: the order journal. A text is the list of its ASCII codes. What is
-- written as JSON is read back unchanged. A row keeps the order request and what `rebuild_open_orders` reads; its time and event are left out. The
-- date, the symbol and the intent of an id are given as texts.
pub mod Ids
pub mod Counts
pub mod Reading
pub mod Freshness
pub mod Torn
mod Tests
use liquidity_bot.Prelude.{
  ℕ, zero, suc, ◌+◌, ◌-◌, ◌*◌, ◌/◌, ◌%◌, Bool, true, false, not, ◌&&◌, ◌||◌, Option, none, some,
  List, [], ◌∷◌, ◌++◌, leb, ltb, ◌==◌, if◌then◌else◌, length,
}
use liquidity_bot.LogFile.{LogFile, append_row}
use liquidity_bot.Models.{OrderRequest}
use liquidity_bot.Orders.{OState}

abbrev pub Text : Type 0
Text = List ℕ

unfoldable pub same_text : Text → Text → Bool
same_text [] [] = true
same_text (c ∷ s) (d ∷ t) = c == d && same_text s t
same_text _ _ = false

unfoldable pub contains_text : Text → List Text → Bool
contains_text t [] = false
contains_text t (s ∷ ss) = same_text t s || contains_text t ss

-- `d.get(key, 0)` and `d[key] = n`
unfoldable pub count_of : Text → List (Text × ℕ) → ℕ
count_of key [] = 0
count_of key ((k, n) ∷ d) = if same_text key k then n else count_of key d

unfoldable pub set_count : Text → ℕ → List (Text × ℕ) → List (Text × ℕ)
set_count key n d = (key, n) ∷ d

-- `str(n)` before its last digits `out`, on fuel: each round divides by ten, so `n` is enough.
unfoldable pub emit : ℕ → ℕ → Text → Text
emit zero n out = out
emit (suc fuel) n out =
    let before = emit fuel (n / 10) ((b'0' + n % 10) ∷ out) in if n == 0 then out else before

abbrev pub zeros : ℕ → Text → Text
zeros zero s = s
zeros (suc k) s = b'0' ∷ zeros k s

-- `f"{n:04d}"`; zero has no digits before it is padded.
unfoldable pub pad4 : ℕ → Text
pad4 n = let s = emit n n [] in zeros (4 - length s) s

-- `int(s)` of digits
unfoldable pub int_from : ℕ → Text → ℕ
int_from n [] = n
int_from n (c ∷ s) = int_from (n * 10 + (c - b'0')) s

abbrev pub all_digits : Text → Bool
all_digits [] = true
all_digits (c ∷ s) = leb b'0' c && leb c b'9' && all_digits s

-- `s.isdigit()`
abbrev pub is_digit : Text → Bool
is_digit [] = false
is_digit (c ∷ s) = all_digits (c ∷ s)

-- `s.rsplit("-", 1)`: around the last dash, where there is one
abbrev pub before_dash : ℕ → Text → Option (Text × Text) → Option (Text × Text)
before_dash c s none = if c == b'-' then some ([], s) else none
before_dash c s (some (p, q)) = some (c ∷ p, q)

unfoldable pub rsplit : Text → Option (Text × Text)
rsplit [] = none
rsplit (c ∷ s) = before_dash c s (rsplit s)

-- `s.removeprefix(prefix)`: what follows the prefix, or else `s`
abbrev pub after : Text → Text → Text → Text
after [] s whole = s
after (_ ∷ _) [] whole = whole
after (c ∷ p) (d ∷ s) whole = if c == d then after p s whole else whole

abbrev pub removeprefix : Text → Text → Text
removeprefix p s = after p s s

abbrev pub wliq : Text
wliq = b'w' ∷ b'l' ∷ b'i' ∷ b'q' ∷ b'-' ∷ []

-- the `key` of `next_client_order_id`
unfoldable pub seq_key_of : Text → Text → Text → Text
seq_key_of date symbol intent = date ++ (b'-' ∷ (symbol ++ (b'-' ∷ intent)))

-- `f"wliq-{key}-{seq:04d}"`
unfoldable pub client_order_id : Text → ℕ → Text
client_order_id key seq = wliq ++ (key ++ (b'-' ∷ pad4 seq))

-- the `seq_key` and the `seq` that `record` reads off an id
abbrev pub parts : Option (Text × Text) → Option Text × ℕ
parts none = (none, 0)
parts (some (p, q)) = (some (removeprefix wliq p), if is_digit q then int_from 0 q else 0)

unfoldable pub seq_parts : Text → Option Text × ℕ
seq_parts id = parts (rsplit id)

abbrev pub max_count : Option Text → ℕ → List (Text × ℕ) → List (Text × ℕ)
max_count none n d = d
max_count (some key) n d = set_count key (if ltb (count_of key d) n then n else count_of key d) d

abbrev pub is_nil : Text → Bool
is_nil [] = true
is_nil (_ ∷ _) = false

pub record Row (F : Type 0) : Type 0 where
  pub id : Text
  pub seq_key : Option Text
  pub seq : ℕ
  pub request : OrderRequest F
  pub status : OState
  pub filled : F

pub record OrderJournal (F : Type 0) : Type 0 where
  pub path : LogFile (Row F)
  pub seen : List Text
  pub seq : List (Text × ℕ)

module _ {F : Type 0} where
  -- a row in the loop of `_load`
  unfoldable pub load_row : Row F → OrderJournal F → OrderJournal F
  load_row r j = record j {
    seen = if is_nil r.id then j.seen else r.id ∷ j.seen;
    seq = max_count r.seq_key r.seq j.seq;
  }

  unfoldable pub load_rows : List (Option (Row F)) → OrderJournal F → OrderJournal F
  load_rows [] j = j
  load_rows (none ∷ rows) j = load_rows rows j
  load_rows (some r ∷ rows) j = load_rows rows (load_row r j)

  -- `OrderJournal(path)`
  unfoldable pub open_journal : LogFile (Row F) → OrderJournal F
  open_journal path = load_rows path.lines (record { path = path; seen = []; seq = [] })

  unfoldable pub next_client_order_id : Text → OrderJournal F → Text × OrderJournal F
  next_client_order_id key j =
      let seq = count_of key j.seq + 1 in
      (client_order_id key seq, record j { seq = set_count key seq j.seq })

  unfoldable pub is_duplicate : Text → OrderJournal F → Bool
  is_duplicate id j = contains_text id j.seen

  -- the row that `record` writes for an order with this id
  unfoldable pub row_of : Text → OrderRequest F → OState → F → Row F
  row_of id request status filled =
      let (seq_key, seq) = seq_parts id in
      record {
        id = id;
        seq_key = seq_key;
        seq = seq;
        request = request;
        status = status;
        filled = filled;
      }

  unfoldable pub record_order : Text → OrderRequest F → OState → F → OrderJournal F → OrderJournal F
  record_order id request status filled j = record j {
    path = append_row (row_of id request status filled) j.path;
    seen = id ∷ j.seen;
  }
