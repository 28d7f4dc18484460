-- ===== src/Scoring/Brackets.antt =====
-- strategy/exhaustion.py: the prices of a signal, and the thresholds it has passed.
use liquidity_bot.Prelude.{ℕ, ◌^◌, ◌≡◌, ◌≢◌, true, false, some, arith, if_cases}
use liquidity_bot.Float.{Float, IsOrdered, lit, lt, ◌≼◌}
use liquidity_bot.Float.Order
use liquidity_bot.Models.{is_buy, GovernorAction, no_trade, Signal}
use liquidity_bot.Models.Features.{FeatureVector}
use liquidity_bot.Config.{StrategyConfig}
use liquidity_bot.Positions.{is_reversal}
use liquidity_bot.Scoring.{
  score, min_score, expected_move_bps, cost_bps, stop_delta, target_delta, entry, evaluate,
}

module _ {F : Type 0} ⦃f : Float F⦄ where
  -- A signal is given only for a permitted action and a score that reaches the action's threshold,
  -- and for a reversal only if the expected move covers the costs. It is the entry of the vector.
  pub evaluate-some :
      (c : StrategyConfig F) (trace : ℕ) (v : FeatureVector F) (a : GovernorAction) (sig : Signal F)
      → evaluate c trace v a ≡ some sig
      → (a ≢ no_trade)
        × (lt (score c a v) (min_score c a) ≡ false)
        × (is_reversal a ≡ true → lt (expected_move_bps c v) (cost_bps c v) ≡ false)
        × (sig ≡ entry c trace a v)
  unfolding evaluate
  evaluate-some c trace v a sig h =
      (λ e. ground arith, ground arith, λ r. ground arith, ground arith)

  module _ (laws : IsOrdered F) (c : StrategyConfig F) where
    open laws use {ratio_mono, tiny_pos}

    ten_thousand_pos : f.lt (f.ratio 0 1) (f.ratio 10_000 1) ≡ true
    ten_thousand_pos =
        Order.lt_of_lt_of_le laws _ _ _ tiny_pos
          (ratio_mono 1 (10 ^ 12) 10_000 1 (omega arith) (omega arith) (omega arith))

    stop_delta_nonneg :
        (v : FeatureVector F) → lit 0 ≼ v.mid → lit 0 ≼ c.stop_bps → lit 0 ≼ stop_delta c v
    unfolding stop_delta
    stop_delta_nonneg v price stop =
        Order.div_nonneg laws _ _ (Order.mul_nonneg laws _ _ price stop) ten_thousand_pos

    target_delta_nonneg :
        (a : GovernorAction) (v : FeatureVector F)
        → lit 0 ≼ v.mid
        → lit 0 ≼ c.stop_bps
        → lit 0 ≼ c.target_residual_reversion
        → lit 0 ≼ target_delta c a v
    unfolding target_delta
    target_delta_nonneg a v price stop reversion =
        let fades =
          Order.mul_nonneg laws _ _
            (Order.mul_nonneg laws _ _ (Order.abs_nonneg laws v.residual_return) price) reversion in
        let one_half : f.le (f.ratio 0 1) (f.ratio 15 10) ≡ true =
          ratio_mono 0 1 15 10 (omega arith) (omega arith) (omega arith) in
        let follows =
          Order.div_nonneg laws _ _
            (Order.mul_nonneg laws _ _ (Order.mul_nonneg laws _ _ price stop) one_half)
            ten_thousand_pos in
        if_cases {A = F} (λ x. lit 0 ≼ x) (is_reversal a) _ _
          (λ _. laws.le_trans _ _ _ fades (Order.le-max_left laws _ _))
          (λ _. laws.le_trans _ _ _ follows (Order.le-max_left laws _ _))

    -- With a price, a stop distance and a reversion that are not negative, the stop of a signal lies
    -- on the losing side of its price and the target on the winning side.
    pub entry-Brackets :
        (trace : ℕ) (a : GovernorAction) (v : FeatureVector F)
        → lit 0 ≼ v.mid
        → lit 0 ≼ c.stop_bps
        → lit 0 ≼ c.target_residual_reversion
        → let s = entry c trace a v in
          (is_buy s.side ≡ true
            → (s.stop_price ≼ s.reference_price) × (s.reference_price ≼ s.target_price))
          × (is_buy s.side ≡ false
              → (s.target_price ≼ s.reference_price) × (s.reference_price ≼ s.stop_price))
    unfolding entry
    entry-Brackets trace a v price stop reversion =
        let loss = stop_delta_nonneg v price stop in
        let gain = target_delta_nonneg a v price stop reversion in
        (
          λ b. rw b (Order.sub-le_nonneg laws _ _ loss, Order.le-add_nonneg laws _ _ gain),
          λ b. rw b (Order.sub-le_nonneg laws _ _ gain, Order.le-add_nonneg laws _ _ loss),
        )
