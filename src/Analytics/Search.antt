-- ===== src/Analytics/Search.antt =====
-- analytics/execution.py: what the search finds among sorted times.
use liquidity_bot.Prelude.{
  ℕ, zero, suc, ◌+◌, ◌-◌, ◌/◌, ◌≤◌, ◌<◌, ◌≡◌, refl, ap, ◌∙◌, true, false, Option, none, some, List,
  [], ◌∷◌, ltb, leb, arith, if◌then◌else◌, if_cases, Bool-cases, inl, inr, ltb→lt, length, get_or,
}
use liquidity_bot.Models.{Symbol, Time}
use liquidity_bot.Analytics.{ExecutionAnalytics, time_at, entry_at, bisect_right, mid_after}

-- the times of `n` entries are in order
abbrev pub IsSorted : ℕ → (ℕ → Time) → Type 0
IsSorted n at = (i j : ℕ) → i ≤ j → j < n → at i ≤ at j

-- `r` parts the entries: up to `x` before it, later than `x` from it on
pub record Parts (n : ℕ) (at : ℕ → Time) (x : Time) (r : ℕ) : Type 0 where
  pub within : r ≤ n
  pub before : (i : ℕ) → i < r → at i ≤ x
  pub after : (i : ℕ) → r ≤ i → i < n → x < at i

module _ (n : ℕ) (at : ℕ → Time) (x : Time) (sorted : IsSorted n at) where
  bisect_right-Parts_from :
      (fuel lo hi : ℕ)
      → hi - lo ≤ fuel
      → lo ≤ hi
      → hi ≤ n
      → ((i : ℕ) → i < lo → at i ≤ x)
      → ((i : ℕ) → hi ≤ i → i < n → x < at i)
      → Parts n at x (bisect_right at x fuel lo hi)
  unfolding bisect_right
  bisect_right-Parts_from zero lo hi enough ordered fits low high = record {
    within = omega arith;
    before = low;
    after = λ i h k. high i (omega arith) k;
  }
  bisect_right-Parts_from (suc fuel) lo hi enough ordered fits low high =
      let middle = (lo + hi) / 2 in
      let left = ltb x (at middle) in
      if_cases (Parts n at x) (ltb lo hi)
        (bisect_right at x fuel (if left then lo else middle + 1) (if left then middle else hi)) lo
        (λ more.
          let open_range = ltb→lt lo hi more in
          elim (Bool-cases left) [
            | inl later ↦ rw later (
                bisect_right-Parts_from fuel lo middle (omega arith) (omega arith) (omega arith) low
                  (λ i h k. omega (arith, ltb→lt x (at middle) later, sorted middle i h k)))
            | inr not_later ↦
                let at_most : at middle ≤ x = ground arith in
                rw not_later (
                  bisect_right-Parts_from fuel (middle + 1) hi (omega arith) (omega arith) fits
                    (λ i h. omega (arith, at_most, sorted i middle (omega arith) (omega arith)))
                    high)
          ])
        (λ none_left.
          let closed : hi ≤ lo = ground arith in
          record { within = omega arith; before = low; after = λ i h k. high i (omega arith) k })

  -- Among sorted times, the search parts those up to `x` from the later ones.
  pub bisect_right-Parts : Parts n at x (bisect_right at x n 0 n)
  bisect_right-Parts =
      bisect_right-Parts_from n 0 n (omega arith) (omega arith) (omega arith)
        (λ i h. absurd (omega arith)) (λ i h k. absurd (omega arith))

module _ {F : Type 0} where
  -- the first mid that is later than `x`
  abbrev pub first_after : Time → List (Time × F) → Option F
  first_after x [] = none
  first_after x ((t, m) ∷ arr) = if ltb x t then some m else first_after x arr

  abbrev pub last_mid : List (Time × F) → Option F
  last_mid [] = none
  last_mid ((t, m) ∷ []) = some m
  last_mid (_ ∷ item ∷ arr) = last_mid (item ∷ arr)

  abbrev pub or_else : Option F → Option F → Option F
  or_else none other = other
  or_else (some m) other = some m

  -- the first mid that is later than `x`, or else the last of all
  abbrev pub first_or_last : Time → List (Time × F) → Option F
  first_or_last x arr = or_else (first_after x arr) (last_mid arr)

  first_after-entry_at :
      (x : Time) (arr : List (Time × F)) (r : ℕ)
      → r < length arr
      → ((i : ℕ) → i < r → time_at arr i ≤ x)
      → x < time_at arr r
      → (m : F) × (first_after x arr ≡ some m) × (entry_at arr r ≡ some m)
  unfolding time_at entry_at
  first_after-entry_at x [] r h before later = absurd (omega (arith, h))
  first_after-entry_at x ((t, m) ∷ arr) zero h before later =
      let hit : ltb x t ≡ true = ground arith in (m, rw hit refl, refl)
  first_after-entry_at x ((t, m) ∷ arr) (suc r) h before later =
      let first : t ≤ x = before 0 (omega arith) in
      let miss : ltb x t ≡ false = ground arith in
      let (m', found, there) =
        first_after-entry_at x arr r (omega arith) (λ i k. before (suc i) (omega arith)) later in
      (m', rw miss found, there)

  first_after-none :
      (x : Time) (arr : List (Time × F))
      → ((i : ℕ) → i < length arr → time_at arr i ≤ x)
      → first_after x arr ≡ none
  unfolding time_at
  first_after-none x [] before = refl
  first_after-none x ((t, m) ∷ arr) before =
      let first : t ≤ x = before 0 (omega arith) in
      let miss : ltb x t ≡ false = ground arith in
      rw miss (first_after-none x arr (λ i k. before (suc i) (omega arith)))

  last_mid-entry_at : (arr : List (Time × F)) → entry_at arr (length arr - 1) ≡ last_mid arr
  unfolding entry_at
  last_mid-entry_at [] = refl
  last_mid-entry_at ((t, m) ∷ []) = refl
  last_mid-entry_at ((u, w) ∷ (t, m) ∷ arr) =
      let step : suc (suc (length arr)) - 1 ≡ suc (suc (length arr) - 1) = omega arith in
      ap (entry_at ((u, w) ∷ (t, m) ∷ arr)) step ∙ last_mid-entry_at ((t, m) ∷ arr)

  -- Where the mids of the symbol came in the order of their times, `_mid_after` is the first mid later than
  -- the horizon after the time, and where there is none the last mid, if any.
  pub mid_after-first_or_last :
      (s : Symbol) (ts : Time) (horizon : ℕ) (a : ExecutionAnalytics F)
      → IsSorted (length (get_or s [] a.mids)) (time_at (get_or s [] a.mids))
      → mid_after s ts horizon a ≡ first_or_last (ts + horizon) (get_or s [] a.mids)
  unfolding mid_after
  mid_after-first_or_last s ts horizon a sorted =
      let arr = get_or s [] a.mids in
      let n = length arr in
      let x = ts + horizon in
      let r = bisect_right (time_at arr) x n 0 n in
      let parts = bisect_right-Parts n (time_at arr) x sorted in
      elim (Bool-cases (leb n r)) [
        | inl past ↦
            let all_before = first_after-none x arr (λ i k. parts.before i (ground arith)) in
            rw (past, all_before) (last_mid-entry_at arr)
        | inr inside ↦
            let (m, found, there) =
              first_after-entry_at x arr r (ground arith) parts.before
                (parts.after r (omega arith) (ground arith)) in
            rw (inside, found, there) refl
      ]
