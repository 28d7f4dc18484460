-- ===== src/Analytics.antt =====
-- analytics/execution.py: the mids of each symbol and the search for the first one after a time. The
-- summary, which averages over the fills, is left out. `bisect_right` is Python's search on fuel: each
-- round shortens the range, so its length is enough.
pub mod Search
mod Tests
use liquidity_bot.Prelude.{
  ℕ, zero, suc, ◌+◌, ◌-◌, ◌*◌, ◌/◌, Bool, true, false, Option, none, some, List, [], ◌∷◌, ◌++◌, ltb,
  leb, if◌then◌else◌, length, Dict, get_or, insert,
}
use liquidity_bot.Float.{Float}
use liquidity_bot.Models.{Symbol, Time, Fill}

pub record FillRecord (F : Type 0) : Type 0 where
  pub fill : Fill F
  pub mid_at_fill : F
  pub decision_price : F
  pub decision_ts : Time

pub record ExecutionAnalytics (F : Type 0) : Type 0 where
  pub records : List (FillRecord F)
  pub mids : Dict (List (Time × F))

-- the time of an entry; the search asks only for entries that there are
unfoldable pub time_at {ℓ} : {A : Type ℓ} → List (Time × A) → ℕ → Time
time_at [] i = 0
time_at ((t, _) ∷ arr) zero = t
time_at (_ ∷ arr) (suc i) = time_at arr i

unfoldable pub entry_at {ℓ} : {A : Type ℓ} → List (Time × A) → ℕ → Option A
entry_at [] i = none
entry_at ((_, a) ∷ arr) zero = some a
entry_at (_ ∷ arr) (suc i) = entry_at arr i

unfoldable pub bisect_right : (ℕ → Time) → Time → ℕ → ℕ → ℕ → ℕ
bisect_right at x zero lo hi = lo
bisect_right at x (suc fuel) lo hi =
    let middle = (lo + hi) / 2 in
    let left = ltb x (at middle) in
    let found =
      bisect_right at x fuel (if left then lo else middle + 1) (if left then middle else hi) in
    if ltb lo hi then found else lo

module _ {F : Type 0} where
  unfoldable pub on_mid : Symbol → Time → F → ExecutionAnalytics F → ExecutionAnalytics F
  on_mid s ts mid a = record a { mids = insert s (get_or s [] a.mids ++ ((ts, mid) ∷ [])) a.mids }

  unfoldable pub note_fill : FillRecord F → ExecutionAnalytics F → ExecutionAnalytics F
  note_fill r a = record a { records = a.records ++ (r ∷ []) }

  -- `_mid_after`; the horizon is in microseconds
  unfoldable pub mid_after : Symbol → Time → ℕ → ExecutionAnalytics F → Option F
  mid_after s ts horizon a =
      let arr = get_or s [] a.mids in
      let n = length arr in
      let i = bisect_right (time_at arr) (ts + horizon) n 0 n in
      if leb n i then entry_at arr (n - 1) else entry_at arr i
