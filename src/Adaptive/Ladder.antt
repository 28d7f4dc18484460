-- ===== src/Adaptive/Ladder.antt =====
-- execution/adaptive.py: the retry ladder.
use liquidity_bot.Prelude.{
  ℕ, ◌≤◌, ◌<◌, ◌≡◌, false, Option, none, some, List, [], ◌∷◌, arith, subst, inl, inr, Option-cases,
  length,
}
use liquidity_bot.Float.{Float, lt}
use liquidity_bot.Models.{Side, Quote}
use liquidity_bot.Adaptive.{
  Style, passive, join, cross, ExecPlan, retry_price, slip_bps, retry, next_retry,
}

-- the retries that a style leaves
abbrev pub rungs : Style → ℕ
rungs passive = 2
rungs join = 1
rungs cross = 0

module _ {F : Type 0} ⦃f : Float F⦄ (s : Side) (decision_price tick : F) where
  abbrev onward : Option (ExecPlan F) → (ExecPlan F → List (ExecPlan F)) → List (ExecPlan F)
  onward none rest = []
  onward (some p) rest = p ∷ rest p

  -- the plans that retrying at each quote in turn makes, until there is none
  unfoldable pub retries : List (Quote F) → ExecPlan F → List (ExecPlan F)
  retries [] prev = []
  retries (q ∷ qs) prev = onward (next_retry prev q s decision_price tick) (retries qs)

  next_retry-some :
      (prev p : ExecPlan F) (q : Quote F)
      → next_retry prev q s decision_price tick ≡ some p
      → (rungs p.style < rungs prev.style)
        × (p.max_chase_bps ≡ prev.max_chase_bps)
        × (p.limit_price ≡ some (retry_price p.style s tick q))
        × (lt prev.max_chase_bps (slip_bps s (retry_price p.style s tick q) decision_price) ≡ false)
  unfolding next_retry retry
  next_retry-some prev p q h = ground arith

  -- A ladder of retries has at most two rungs, however many quotes come: from passive over join to
  -- cross, where it ends.
  pub retries-length :
      (qs : List (Quote F)) (prev : ExecPlan F) → length (retries qs prev) ≤ rungs prev.style
  unfolding retries
  retries-length [] prev = omega arith
  retries-length (q ∷ qs) prev = elim (Option-cases (next_retry prev q s decision_price tick)) [
    | inl e ↦ rw e (omega arith)
    | inr (p, e) ↦
        let (lower, _, _, _) = next_retry-some prev p q e in
        let rest = retries-length qs p in rw e (omega arith)
  ]

  -- prices within a limit on chasing
  abbrev pub Kept : F → List (ExecPlan F) → Type 0
  Kept chase [] = Unit {0}
  Kept chase (p ∷ ps) =
      ((px : F) × (p.limit_price ≡ some px) × (lt chase (slip_bps s px decision_price) ≡ false))
      × Kept chase ps

  -- Every plan of the ladder keeps the limit on chasing that the first plan set, and its price does
  -- not slip beyond that limit from the decision price.
  pub retries-Kept :
      (qs : List (Quote F)) (prev : ExecPlan F) → Kept prev.max_chase_bps (retries qs prev)
  unfolding retries
  retries-Kept [] prev = tt
  retries-Kept (q ∷ qs) prev = elim (Option-cases (next_retry prev q s decision_price tick)) [
    | inl e ↦ rw e tt
    | inr (p, e) ↦
        let (_, same, priced, within) = next_retry-some prev p q e in
        let rest = subst (λ x. Kept x (retries qs p)) same (retries-Kept qs p) in
        rw e ((retry_price p.style s tick q, priced, within), rest)
  ]
