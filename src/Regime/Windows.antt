-- ===== src/Regime/Windows.antt =====
-- ml/regime.py: the histories of the anomaly detector.
use liquidity_bot.Prelude.{
  ℕ, ◌+◌, ◌≤◌, ◌&&◌, List, [], ◌∷◌, ◌++◌, arith, ltb, ◌==◌, if_cases, length, length-append,
}
use liquidity_bot.Float.{Float}
use liquidity_bot.Models.{Symbol}
use liquidity_bot.Models.Features.{FeatureVector}
use liquidity_bot.Regime.{
  Field, number, fields, AnomalyDetector, tail, push, set_history, check_field, check_fields, check,
  check_all, value_of,
}

length-tail {ℓ} : {A : Type ℓ} (xs : List A) (n : ℕ) → length xs ≤ n + 1 → length (tail xs) ≤ n
length-tail [] n h = omega arith
length-tail (x ∷ xs) n h = omega (arith, h)

length-push {ℓ} :
    {A : Type ℓ} (window : ℕ) (v : A) (h : List A)
    → length h ≤ window
    → length (push window v h) ≤ window
unfolding push
length-push window v h fits =
    let added = length-append h (v ∷ []) in
    if_cases (λ xs. length xs ≤ window) (ltb window (length (h ++ (v ∷ [])))) (tail (h ++ (v ∷ [])))
      (h ++ (v ∷ [])) (λ _. length-tail (h ++ (v ∷ [])) window (omega (arith, added, fits)))
      (λ small. ground arith)

module _ {F : Type 0} ⦃f : Float F⦄ (median : List F → F) where
  -- Every history is within the window.
  abbrev pub IsBounded : AnomalyDetector F → Type 0
  IsBounded d = (s : Symbol) (name : Field) → length (d.hist s name) ≤ d.window

  check_field-IsBounded :
      (v : FeatureVector F) (name : Field) (d : AnomalyDetector F)
      → IsBounded d
      → IsBounded (check_field median v name d).1
  unfolding check_field set_history
  check_field-IsBounded v name d h s other =
      if_cases (λ xs. length xs ≤ d.window) (v.symbol == s && number name == number other)
        (push d.window (value_of name v) (d.hist v.symbol name)) (d.hist s other)
        (λ _. length-push d.window (value_of name v) (d.hist v.symbol name) (h v.symbol name))
        (λ _. h s other)

  check_fields-IsBounded :
      (v : FeatureVector F) (names : List Field) (d : AnomalyDetector F)
      → IsBounded d
      → IsBounded (check_fields median v names d).1
  unfolding check_fields
  check_fields-IsBounded v [] d h = h
  check_fields-IsBounded v (name ∷ names) d h =
      check_fields-IsBounded v names (check_field median v name d).1
        (check_field-IsBounded v name d h)

  -- The histories stay within the window through any checks.
  pub check_all-IsBounded :
      (vs : List (FeatureVector F)) (d : AnomalyDetector F)
      → IsBounded d
      → IsBounded (check_all median vs d)
  unfolding check_all check
  check_all-IsBounded [] d h = h
  check_all-IsBounded (v ∷ vs) d h =
      check_all-IsBounded vs (check median v d).1 (check_fields-IsBounded v fields d h)
