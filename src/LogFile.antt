-- ===== src/LogFile.antt =====
-- core/journal.py and execution/ledger.py: the files of JSON lines that they append to and read back.
-- A line that is no JSON is `none`. A write that a crash has torn leaves a last line without its
-- newline: whole or cut off, it then takes the next row that is written into the same line.
use liquidity_bot.Prelude.{
  ◌≡◌, refl, ap, Bool, true, false, Option, none, some, List, [], ◌∷◌, ◌++◌, if◌then◌else◌,
}

pub record LogFile {ℓ} (R : Type ℓ) : Type ℓ where
  pub lines : List (Option R)
  -- the last line has no newline
  pub unended : Bool

abbrev pub empty_file {ℓ} : {R : Type ℓ} → LogFile R
empty_file = record { lines = []; unended = false }

-- two rows on the last line are no JSON
abbrev pub spoil_last {ℓ} : {R : Type ℓ} → List (Option R) → List (Option R)
spoil_last [] = []
spoil_last (line ∷ []) = none ∷ []
spoil_last (line ∷ next ∷ lines) = line ∷ spoil_last (next ∷ lines)

-- `fh.write(json.dumps(row) + "\n")` on a file opened to append
unfoldable pub append_row {ℓ} : {R : Type ℓ} → R → LogFile R → LogFile R
append_row row file = record {
  lines = if file.unended then spoil_last file.lines else file.lines ++ (some row ∷ []);
  unended = false;
}

pub append_row-lines {ℓ} :
    {R : Type ℓ}
    → (row : R) (file : LogFile R) → file.unended ≡ false
    → (append_row row file).lines ≡ file.lines ++ (some row ∷ [])
unfolding append_row
append_row-lines row file h = rw h refl

-- A file is ended once a row has been appended.
pub append_row-ended {ℓ} :
    {R : Type ℓ} → (row : R) (file : LogFile R) → (append_row row file).unended ≡ false
unfolding append_row
append_row-ended row file = refl

pub spoil_last-torn {ℓ} :
    {R : Type ℓ} → (rows : List (Option R)) → spoil_last (rows ++ (none ∷ [])) ≡ rows ++ (none ∷ [])
spoil_last-torn [] = refl
spoil_last-torn (row ∷ []) = refl
spoil_last-torn (row ∷ next ∷ rows) = ap (λ lines. row ∷ lines) (spoil_last-torn (next ∷ rows))

-- A row that follows a torn line is lost with it.
pub append_row-torn {ℓ} :
    {R : Type ℓ}
    → (row : R) (rows : List (Option R))
    → (append_row row (record { lines = rows ++ (none ∷ []); unended = true })).lines
      ≡ rows ++ (none ∷ [])
unfolding append_row
append_row-torn row rows = spoil_last-torn rows
