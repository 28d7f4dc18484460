-- ===== src/Scoring.antt =====
-- strategy/exhaustion.py: the scoring of entries. The random trace id is an argument, and the rounded
-- components that the signal carries for the log are left out.
pub mod Brackets
mod Tests
use liquidity_bot.Prelude.{
  ℕ, ◌≡◌, refl, Bool, true, false, not, ◌&&◌, Option, none, some, List, [], ◌∷◌, if◌then◌else◌,
}
use liquidity_bot.Float.{Float, ◌⊕◌, ◌⊖◌, ◌⊗◌, ◌⊘◌, lit, ratio, le, lt, neg, max, min, abs}
use liquidity_bot.Models.{
  Side, buy, sell, is_buy, GovernorAction, reversal, continuation, no_trade, Signal,
}
use liquidity_bot.Models.Features.{FeatureVector}
use liquidity_bot.Config.{ScoringWeights, StrategyConfig}
use liquidity_bot.Governor.{move_dir}
use liquidity_bot.Positions.{is_reversal}

module _ {F : Type 0} ⦃f : Float F⦄ where
  unfoldable pub clip : F → F → F → F
  unfolding max min
  clip x lo hi = max lo (min hi x)

  -- `sum(components.values())`
  unfoldable pub sum_from : F → List F → F
  sum_from acc [] = acc
  sum_from acc (x ∷ xs) = sum_from (acc ⊕ x) xs

  unfoldable pub reversal_components : ScoringWeights F → FeatureVector F → List F
  reversal_components w v =
      let d = move_dir v in
      w.residual_z ⊗ clip (abs v.residual_z) (lit 0) (lit 5)
      ∷ w.flow_exhaustion ⊗ max (lit 0) (d ⊗ v.flow_imbalance)
      ∷ w.impact_decay ⊗ max (lit 0) v.impact_decay
      ∷ w.replenishment ⊗ max (lit 0) (neg d ⊗ v.replenishment_skew)
      ∷ w.microprice ⊗ max (lit 0) (neg d ⊗ v.microprice_bps ⊘ lit 2)
      ∷ w.peer_divergence ⊗ max (lit 0) (lit 1 ⊖ v.peer_confirmation)
      ∷ w.volume_surprise ⊗ clip v.volume_z (lit 0) (lit 4) ⊘ lit 4
      ∷ w.depth_imbalance ⊗ max (lit 0) (neg d ⊗ v.depth_imbalance)
      ∷ w.spread_normalization ⊗ max (lit 0) (ratio 6 10 ⊖ v.spread_pctile)
      ∷ []

  unfoldable pub continuation_components : ScoringWeights F → FeatureVector F → List F
  continuation_components w v =
      let d = move_dir v in
      w.residual_z ⊗ clip (abs v.residual_z) (lit 0) (lit 5)
      ∷ w.flow_exhaustion ⊗ max (lit 0) (d ⊗ v.flow_imbalance)
      ∷ w.impact_decay ⊗ max (lit 0) (neg v.impact_decay)
      ∷ w.replenishment ⊗ max (lit 0) (d ⊗ v.replenishment_skew)
      ∷ w.microprice ⊗ max (lit 0) (d ⊗ v.microprice_bps ⊘ lit 2)
      ∷ w.peer_divergence ⊗ max (lit 0) (v.peer_confirmation ⊖ ratio 3 10)
      ∷ w.volume_surprise ⊗ clip v.volume_z (lit 0) (lit 4) ⊘ lit 4
      ∷ w.depth_imbalance ⊗ max (lit 0) (d ⊗ v.depth_imbalance)
      ∷ []

  module _ (c : StrategyConfig F) where
    unfoldable pub score : GovernorAction → FeatureVector F → F
    score a v = sum_from (lit 0) (
        if is_reversal a
        then reversal_components c.weights v
        else continuation_components c.weights v)

    abbrev pub min_score : GovernorAction → F
    min_score a = if is_reversal a then c.min_score else c.min_continuation_score

    -- a reversal fades the move, a continuation trades with it
    unfoldable pub side : GovernorAction → FeatureVector F → Side
    side a v =
        let up = lt (lit 0) (move_dir v) in
        if is_reversal a then if up then sell else buy else if up then buy else sell

    unfoldable pub expected_move_bps : FeatureVector F → F
    expected_move_bps v = abs v.residual_return ⊗ lit 10_000 ⊗ c.target_residual_reversion

    abbrev pub cost_bps : FeatureVector F → F
    cost_bps v = v.spread_bps ⊕ lit 2

    unfoldable pub stop_delta : FeatureVector F → F
    stop_delta v = v.mid ⊗ c.stop_bps ⊘ lit 10_000

    unfoldable pub target_delta : GovernorAction → FeatureVector F → F
    target_delta a v =
        if is_reversal a
        then max (abs v.residual_return ⊗ v.mid ⊗ c.target_residual_reversion)
            (v.mid ⊗ cost_bps v ⊘ lit 10_000)
        else max (v.mid ⊗ c.stop_bps ⊗ ratio 15 10 ⊘ lit 10_000) (v.mid ⊗ cost_bps v ⊘ lit 10_000)

    -- the signal that `evaluate` returns
    unfoldable pub entry : ℕ → GovernorAction → FeatureVector F → Signal F
    entry trace a v =
        let s = side a v in
        record {
          symbol = v.symbol;
          ts = v.ts;
          side = s;
          action = a;
          score = score a v;
          reference_price = v.mid;
          stop_price = if is_buy s then v.mid ⊖ stop_delta v else v.mid ⊕ stop_delta v;
          target_price = if is_buy s then v.mid ⊕ target_delta a v else v.mid ⊖ target_delta a v;
          trace_id = trace;
        }

    abbrev pub is_no_trade : GovernorAction → Bool
    is_no_trade no_trade = true
    is_no_trade _ = false

    unfoldable pub evaluate : ℕ → FeatureVector F → GovernorAction → Option (Signal F)
    evaluate trace v a =
        if is_no_trade a
        then none
        else if is_reversal a && lt (expected_move_bps v) (cost_bps v)
        then none
        else if lt (score a v) (min_score a)
        then none
        else some (entry trace a v)
