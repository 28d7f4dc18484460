-- ===== src/Journal/Reading.antt =====
-- core/journal.py: what `_load` makes of the rows of a file.
use liquidity_bot.Prelude.{
  ℕ, ◌≤◌, ◌≡◌, refl, if_cases, true, false, Option, none, some, List, [], ◌∷◌, ◌++◌, arith,
  if◌then◌else◌, Bool-cases, inl, inr, ◌⊎◌,
}
use liquidity_bot.Journal.{
  Text, same_text, contains_text, count_of, client_order_id, seq_parts, max_count, is_nil, Row,
  OrderJournal, load_row, load_rows,
}
use liquidity_bot.Journal.Counts.{IsCounted, count_of-grows, contains-cons, reached}

module _ {F : Type 0} where
  -- the ids in the rows of a file
  abbrev pub ids : List (Option (Row F)) → List Text
  ids [] = []
  ids (none ∷ rows) = ids rows
  ids (some r ∷ rows) = if is_nil r.id then ids rows else r.id ∷ ids rows

  -- every row of the file was written by `record`
  abbrev pub AreWritten : List (Option (Row F)) → Type 0
  AreWritten [] = Unit {0}
  AreWritten (none ∷ rows) = AreWritten rows
  AreWritten (some r ∷ rows) =
      (◌≡◌ {A = Option Text × ℕ} (r.seq_key, r.seq) (seq_parts r.id)) × AreWritten rows

  pub AreWritten-append :
      (rows more : List (Option (Row F)))
      → AreWritten rows
      → AreWritten more
      → AreWritten (rows ++ more)
  AreWritten-append [] more h k = k
  AreWritten-append (none ∷ rows) more h k = AreWritten-append rows more h k
  AreWritten-append (some r ∷ rows) more (w, h) k = (w, AreWritten-append rows more h k)

  load_row-IsCounted :
      (r : Row F) (j : OrderJournal F)
      → ◌≡◌ {A = Option Text × ℕ} (r.seq_key, r.seq) (seq_parts r.id)
      → IsCounted j.seen j.seq
      → IsCounted (load_row r j).seen (load_row r j).seq
  unfolding load_row
  load_row-IsCounted r j written h key n =
      let old : contains_text (client_order_id key n) j.seen ≡ true
          → n ≤ count_of key (max_count r.seq_key r.seq j.seq) =
        λ c. omega (arith, h key n c, count_of-grows key r.seq_key r.seq j.seq) in
      if_cases
        (λ (seen : List Text).
          contains_text (client_order_id key n) seen ≡ true
          → n ≤ count_of key (max_count r.seq_key r.seq j.seq))
        (is_nil r.id) j.seen (r.id ∷ j.seen) (λ _. old)
        (λ _ c. elim (contains-cons (client_order_id key n) r.id j.seen c) [
          | inl same ↦ reached key r.id r.seq_key n r.seq j.seq written same
          | inr c ↦ old c
        ])

  pub load_rows-IsCounted :
      (rows : List (Option (Row F))) (j : OrderJournal F)
      → AreWritten rows
      → IsCounted j.seen j.seq
      → IsCounted (load_rows rows j).seen (load_rows rows j).seq
  unfolding load_rows
  load_rows-IsCounted [] j w h = h
  load_rows-IsCounted (none ∷ rows) j w h = load_rows-IsCounted rows j w h
  load_rows-IsCounted (some r ∷ rows) j (written, w) h =
      load_rows-IsCounted rows (load_row r j) w (load_row-IsCounted r j written h)

  pub load_rows-path :
      (rows : List (Option (Row F))) (j : OrderJournal F) → (load_rows rows j).path ≡ j.path
  unfolding load_rows load_row
  load_rows-path [] j = refl
  load_rows-path (none ∷ rows) j = load_rows-path rows j
  load_rows-path (some r ∷ rows) j = load_rows-path rows (load_row r j)

  -- What has been seen stays so, and so does each id of the rows that are read.
  pub load_rows-sees :
      (id : Text) (rows : List (Option (Row F))) (j : OrderJournal F)
      → (contains_text id (ids rows) ≡ true) ⊎ (contains_text id j.seen ≡ true)
      → contains_text id (load_rows rows j).seen ≡ true
  unfolding load_rows load_row contains_text
  load_rows-sees id [] j h = ground arith
  load_rows-sees id (none ∷ rows) j h = load_rows-sees id rows j h
  load_rows-sees id (some r ∷ rows) j h = elim (Bool-cases (is_nil r.id)) [
    | inl e ↦ load_rows-sees id rows (load_row r j) (rw e (rw e at h))
    | inr ne ↦ load_rows-sees id rows (load_row r j) (rw ne (ground (arith, rw ne at h)))
  ]

  pub ids-append :
      (id : Text) (rows : List (Option (Row F))) (r : Row F)
      → (contains_text id (ids rows) ≡ true) ⊎ (same_text id r.id ≡ true) × (is_nil r.id ≡ false)
      → contains_text id (ids (rows ++ (some r ∷ []))) ≡ true
  unfolding contains_text
  ids-append id [] r h = ground arith
  ids-append id (none ∷ rows) r h = ids-append id rows r h
  ids-append id (some q ∷ rows) r h = elim (Bool-cases (is_nil q.id)) [
    | inl e ↦ rw e (ids-append id rows r (rw e at h))
    | inr ne ↦ rw ne (ground (arith, ids-append id rows r, rw ne at h))
  ]
