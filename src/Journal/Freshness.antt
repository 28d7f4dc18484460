-- ===== src/Journal/Freshness.antt =====
-- core/journal.py: the ids of the orders that are recorded, over restarts, where no write is torn.
use liquidity_bot.Prelude.{
  ◌+◌, ◌≡◌, refl, if_cases, true, false, some, List, [], ◌∷◌, ◌++◌, arith, if◌then◌else◌,
  Bool-cases, inl, inr, ◌⊎◌,
}
use liquidity_bot.LogFile.{LogFile, append_row-lines, append_row-ended}
use liquidity_bot.Models.{OrderRequest}
use liquidity_bot.Orders.{OState}
use liquidity_bot.Journal.{
  Text, same_text, contains_text, count_of, set_count, client_order_id, is_nil, Row, OrderJournal,
  open_journal, next_client_order_id, is_duplicate, row_of, record_order,
}
use liquidity_bot.Journal.Counts.{
  IsCounted, count_of-issue, contains-cons, IsCounted-issue, IsCounted-again, known_cons,
}
use liquidity_bot.Journal.Reading.{
  ids, AreWritten, AreWritten-append, load_rows-IsCounted, load_rows-path, load_rows-sees,
  ids-append,
}

-- What happens to the journal, with every write whole: an id is given out and its order recorded, an id
-- is given out and nothing recorded, another row of a known order is recorded, and the program starts
-- again from the file.
pub data Op (F : Type 0) : Type 0 where
  issues : Text → OrderRequest F → OState → F → Op F
  draws : Text → Op F
  updates : Text → OrderRequest F → OState → F → Op F
  restarts : Op F

module _ {F : Type 0} where
  -- the journal, and the ids of all orders that were ever recorded, which nothing forgets
  unfoldable pub perform : Op F → OrderJournal F × List Text → OrderJournal F × List Text
  perform (issues key request status filled) (j, known) =
      let (id, j') = next_client_order_id key j in
      (record_order id request status filled j', id ∷ known)
  perform (draws key) (j, known) = ((next_client_order_id key j).1, known)
  perform (updates id request status filled) (j, known) =
      (if is_duplicate id j then record_order id request status filled j else j, known)
  perform restarts (j, known) = (open_journal j.path, known)

  unfoldable pub perform_all : List (Op F) → OrderJournal F × List Text → OrderJournal F × List Text
  perform_all [] s = s
  perform_all (op ∷ ops) s = perform_all ops (perform op s)

  -- The journal's invariant, with the ids recorded so far. The file ends with a newline and holds rows
  -- of `record`; the ids that the journal makes are counted once seen, and those recorded have been
  -- seen and are in the file.
  record IsSound (j : OrderJournal F) (known : List Text) : Type 0 where
    ended : j.path.unended ≡ false
    written : AreWritten j.path.lines
    counted : IsCounted j.seen j.seq
    kept : (id : Text) → contains_text id known ≡ true → contains_text id j.seen ≡ true
    stored :
        (id : Text) → contains_text id known ≡ true → contains_text id (ids j.path.lines) ≡ true

  open_journal-IsSound :
      (file : LogFile (Row F)) (known : List Text)
      → file.unended ≡ false
      → AreWritten file.lines
      → ((id : Text) → contains_text id known ≡ true → contains_text id (ids file.lines) ≡ true)
      → IsSound (open_journal file) known
  unfolding open_journal
  open_journal-IsSound file known ended w stored =
      let j : OrderJournal F = record { path = file; seen = []; seq = [] } in
      let same = load_rows-path file.lines j in
      record {
        ended = rw same ended;
        written = rw same w;
        counted =
            load_rows-IsCounted file.lines j w (λ key n c. absurd (unfold contains_text in cc));
        kept = λ id c. load_rows-sees id file.lines j (inl (stored id c));
        stored = rw same stored;
      }

  record_order-lines :
      (id : Text) (request : OrderRequest F) (status : OState) (filled : F) (j : OrderJournal F)
      → j.path.unended ≡ false
      → (record_order id request status filled j).path.lines
        ≡ j.path.lines ++ (some (row_of id request status filled) ∷ [])
  unfolding record_order
  record_order-lines id request status filled j ended =
      append_row-lines (row_of id request status filled) j.path ended

  record_order-AreWritten :
      (id : Text) (request : OrderRequest F) (status : OState) (filled : F) (j : OrderJournal F)
      → j.path.unended ≡ false
      → AreWritten j.path.lines
      → AreWritten (record_order id request status filled j).path.lines
  unfolding row_of
  record_order-AreWritten id request status filled j ended w =
      rw (record_order-lines id request status filled j ended)
        (AreWritten-append j.path.lines (some (row_of id request status filled) ∷ []) w (refl, tt))

  -- What is in the file stays in it, and the new id joins it, unless it is empty.
  record_order-stores :
      (id other : Text) (request : OrderRequest F) (status : OState) (filled : F)
      (j : OrderJournal F)
      → j.path.unended ≡ false
      → (contains_text other (ids j.path.lines) ≡ true)
        ⊎ (same_text other id ≡ true) × (is_nil id ≡ false)
      → contains_text other (ids (record_order id request status filled j).path.lines) ≡ true
  unfolding row_of
  record_order-stores id other request status filled j ended h =
      rw (record_order-lines id request status filled j ended)
        (ids-append other j.path.lines (row_of id request status filled) h)

  record_order-ended :
      (id : Text) (request : OrderRequest F) (status : OState) (filled : F) (j : OrderJournal F)
      → (record_order id request status filled j).path.unended ≡ false
  unfolding record_order
  record_order-ended id request status filled j =
      append_row-ended (row_of id request status filled) j.path

  issues-IsSound :
      (key : Text) (request : OrderRequest F) (status : OState) (filled : F) (j : OrderJournal F)
      (known : List Text)
      → IsSound j known
      → let (id, j') = next_client_order_id key j in
        IsSound (record_order id request status filled j') (id ∷ known)
  unfolding next_client_order_id
  issues-IsSound key request status filled j known h =
      let seq = count_of key j.seq + 1 in
      let id = client_order_id key seq in
      let j' = record j { seq = set_count key seq j.seq } in
      record {
        ended = record_order-ended id request status filled j';
        written = record_order-AreWritten id request status filled j' h.ended h.written;
        counted = unfold record_order in IsCounted-issue key j.seen j.seq h.counted;
        kept = λ other c.
            unfold record_order in
            elim (contains-cons other id known c) [
              | inl same ↦ known_cons other id j.seen (inl same)
              | inr c ↦ known_cons other id j.seen (inr (h.kept other c))
            ];
        stored = λ other c.
            record_order-stores id other request status filled j' h.ended
              (elim (contains-cons other id known c) [
                | inl same ↦ inr (same, unfold client_order_id in refl)
                | inr c ↦ inl (h.stored other c)
              ]);
      }

  updates-IsSound :
      (id : Text) (request : OrderRequest F) (status : OState) (filled : F) (j : OrderJournal F)
      (known : List Text)
      → contains_text id j.seen ≡ true
      → IsSound j known
      → IsSound (record_order id request status filled j) known
  updates-IsSound id request status filled j known dup h = record {
    ended = record_order-ended id request status filled j;
    written = record_order-AreWritten id request status filled j h.ended h.written;
    counted = unfold record_order in IsCounted-again id j.seen j.seq dup h.counted;
    kept = λ other c. unfold record_order in known_cons other id j.seen (inr (h.kept other c));
    stored = λ other c.
        record_order-stores id other request status filled j h.ended (inl (h.stored other c));
  }

  perform-IsSound :
      (op : Op F) (j : OrderJournal F) (known : List Text)
      → IsSound j known
      → let (j', known') = perform op (j, known) in IsSound j' known'
  unfolding perform next_client_order_id is_duplicate
  perform-IsSound (issues key request status filled) j known h =
      issues-IsSound key request status filled j known h
  perform-IsSound (draws key) j known h = record {
    ended = h.ended;
    written = h.written;
    counted = λ other n c. omega (arith, h.counted other n c, count_of-issue other key j.seq);
    kept = h.kept;
    stored = h.stored;
  }
  perform-IsSound (updates id request status filled) j known h =
      if_cases (λ j'. IsSound j' known) (contains_text id j.seen)
        (record_order id request status filled j) j
        (λ dup. updates-IsSound id request status filled j known dup h) (λ _. h)
  perform-IsSound restarts j known h = open_journal-IsSound j.path known h.ended h.written h.stored

  perform_all-IsSound :
      (ops : List (Op F)) (j : OrderJournal F) (known : List Text)
      → IsSound j known
      → let (j', known') = perform_all ops (j, known) in IsSound j' known'
  unfolding perform_all
  perform_all-IsSound [] j known h = h
  perform_all-IsSound (op ∷ ops) j known h =
      let (j', known') = perform op (j, known) in
      perform_all-IsSound ops j' known' (perform-IsSound op j known h)

  next-IsFresh :
      (key : Text) (j : OrderJournal F) (known : List Text)
      → IsSound j known
      → let id = (next_client_order_id key j).0 in
        (contains_text id known ≡ false) × (is_duplicate id j ≡ false)
  unfolding next_client_order_id is_duplicate
  next-IsFresh key j known h =
      let id = client_order_id key (count_of key j.seq + 1) in
      let unseen : contains_text id j.seen ≡ false = elim (Bool-cases (contains_text id j.seen)) [
        | inl dup ↦ absurd (omega (arith, h.counted key (count_of key j.seq + 1) dup))
        | inr fresh ↦ fresh
      ] in
      elim (Bool-cases (contains_text id known)) [
        | inl old ↦ absurd (ground (arith, h.kept id old))
        | inr fresh ↦ (fresh, unseen)
      ]

  -- Opened on a file that ends with a newline and whose readable rows `record` wrote, then used in any
  -- way in which no write is torn (ids given out, with their orders recorded or not, more rows of known
  -- orders, and restarts from the file), the journal next gives out an id that is neither in the file at
  -- the start nor that of an order recorded since, before or after a restart; nor is it a duplicate.
  pub next_id-IsFresh :
      (file : LogFile (Row F)) (ops : List (Op F)) (key : Text)
      → file.unended ≡ false
      → AreWritten file.lines
      → let (j, known) = perform_all ops (open_journal file, ids file.lines) in
        let id = (next_client_order_id key j).0 in
        (contains_text id known ≡ false) × (is_duplicate id j ≡ false)
  next_id-IsFresh file ops key ended w =
      let start = open_journal-IsSound file (ids file.lines) ended w (λ id c. c) in
      let (j, known) = perform_all ops (open_journal file, ids file.lines) in
      next-IsFresh key j known (perform_all-IsSound ops (open_journal file) (ids file.lines) start)
