-- ===== src/Portfolio/Sizing.antt =====
-- execution/risk2.py: the bounds of the size multiplier.
use liquidity_bot.Prelude.{ℕ, zero, suc, ◌^◌, ◌≡◌, refl, arith}
use liquidity_bot.Float.{Float, IsOrdered, ◌⊖◌, ◌⊗◌, ◌⊘◌, lit, ratio, ◌≼◌, ◌≺◌, max, min}
use liquidity_bot.Float.Order
use liquidity_bot.Models.Features.{FeatureVector}
use liquidity_bot.Portfolio.{
  PortfolioRiskConfig, PortfolioRisk, regime_multiplier, vol_scale, drawdown_scale, size_multiplier,
}

module _ {F : Type 0} ⦃f : Float F⦄ where
  -- the regime's own multiplier: calm, normal, and anything above
  abbrev pub multiplier_at : F × F × F → ℕ → F
  multiplier_at (calm, normal, wild) zero = calm
  multiplier_at (calm, normal, wild) (suc zero) = normal
  multiplier_at (calm, normal, wild) (suc (suc regime)) = wild

  -- what part of the size a drawdown leaves at most
  pub data Share (c : PortfolioRiskConfig F) (dd : F) : F → Type 0 where
    whole : Share c dd (lit 1)
    half : c.dd_soft_usd ≼ dd → Share c dd (ratio 5 10)
    quarter : c.dd_hard_usd ≼ dd → Share c dd (ratio 25 100)

  -- the size that brings the daily volatility of a full book to its target, over the observed one
  abbrev pub targeted : PortfolioRiskConfig F → F → F
  targeted c vol = c.target_daily_vol_usd ⊘ c.max_gross_exposure_usd ⊗ lit 10_000 ⊘ vol

  regime_multiplier-at :
      (m : F × F × F) (regime : ℕ) → regime_multiplier m regime ≡ multiplier_at m regime
  unfolding regime_multiplier
  regime_multiplier-at (calm, normal, wild) zero = refl
  regime_multiplier-at (calm, normal, wild) (suc zero) = refl
  regime_multiplier-at (calm, normal, wild) (suc (suc regime)) = ground arith

  module _ (laws : IsOrdered F) where
    open laws use {le_trans, le_refl, mul_mono, mul-one, ratio_mono}

    max_of_le : (x y : F) → y ≼ x → max x y ≡ x
    unfolding max
    max_of_le x y h = rw (Order.not_lt_of_le laws x y h) refl

    share_nonneg : (c : PortfolioRiskConfig F) (dd share : F) → Share c dd share → lit 0 ≼ share
    share_nonneg c dd share whole = Order.zero-le-one laws
    share_nonneg c dd share (half _) = ratio_mono 0 1 5 10 (omega arith) (omega arith) (omega arith)
    share_nonneg c dd share (quarter _) =
        ratio_mono 0 1 25 100 (omega arith) (omega arith) (omega arith)

    quarter-half : (m : F) → lit 0 ≼ m → m ⊗ ratio 25 100 ≼ m ⊗ ratio 5 10
    quarter-half m pos =
        Order.mul_mono_right laws _ _ m pos
          (ratio_mono 25 100 5 10 (omega arith) (omega arith) (omega arith))

    half-whole : (m : F) → lit 0 ≼ m → m ⊗ ratio 5 10 ≼ m ⊗ lit 1
    half-whole m pos =
        Order.mul_mono_right laws _ _ m pos
          (ratio_mono 5 10 1 1 (omega arith) (omega arith) (omega arith))

    -- A drawdown leaves at most each of the shares that apply.
    drawdown_scale-le :
        (c : PortfolioRiskConfig F) (dd share m : F)
        → lit 0 ≼ m
        → Share c dd share
        → drawdown_scale c dd m ≼ m ⊗ share
    unfolding drawdown_scale
    drawdown_scale-le c dd share m pos whole = ground (
      arith,
      quarter-half m pos,
      half-whole m pos,
      le_refl m,
      mul-one m,
      le_trans (m ⊗ ratio 25 100) (m ⊗ ratio 5 10) (m ⊗ lit 1),
    )
    drawdown_scale-le c dd share m pos (half soft) =
        ground (arith, quarter-half m pos, le_refl (m ⊗ ratio 5 10))
    drawdown_scale-le c dd share m pos (quarter hard) = ground (arith, le_refl (m ⊗ ratio 25 100))

    vol_scale-eq :
        (c : PortfolioRiskConfig F) (v : FeatureVector F) (m : F)
        → ratio 1 (10 ^ 9) ≼ c.max_gross_exposure_usd
        → ratio 1 (10 ^ 9) ≺ v.realized_vol_bps
        → vol_scale c v m
          ≡ m ⊗ max c.vol_size_floor (min c.vol_size_cap (targeted c v.realized_vol_bps))
    unfolding vol_scale
    vol_scale-eq c v m gross vol =
        rw (vol, max_of_le c.max_gross_exposure_usd (ratio 1 (10 ^ 9)) gross) refl

    -- A product that bounds the drawdown's scaling of a smaller size bounds the clamped multiplier.
    clamped-le :
        (c : PortfolioRiskConfig F) (dd share m size bound : F)
        → lit 0 ≼ m
        → lit 0 ≼ size
        → size ≼ bound
        → Share c dd share
        → max (lit 0) (min c.vol_size_cap (drawdown_scale c dd (m ⊗ size))) ≼ m ⊗ bound ⊗ share
    clamped-le c dd share m size bound pos pos' h cut =
        let left = share_nonneg c dd share cut in
        let product = Order.mul_nonneg laws m bound pos (le_trans _ _ _ pos' h) in
        let grows =
          mul_mono (m ⊗ size) (m ⊗ bound) share left
            (Order.mul_mono_right laws size bound m pos h) in
        let scaled =
          drawdown_scale-le c dd share (m ⊗ size) (Order.mul_nonneg laws m size pos pos') cut in
        Order.max-le laws _ _ _ (Order.mul_nonneg laws (m ⊗ bound) share product left)
          (le_trans _ _ _ (Order.min-le_right laws _ _) (le_trans _ _ _ scaled grows))

    -- With a floor between zero and the cap, a gross limit and an observed volatility of at least and
    -- over `1e-9`, and a regime whose multiplier is not negative, the size multiplier is not negative and
    -- at most the cap. It is also at most the regime's multiplier, times the cap or times the larger of
    -- the floor and the volatility target over the observed volatility, times each share that the
    -- drawdown leaves: a half from the soft level on, and a quarter from the hard level on.
    pub size_multiplier-bounds :
        (v : FeatureVector F) (p : PortfolioRisk F) (share : F)
        → lit 0 ≼ p.cfg.vol_size_floor
        → p.cfg.vol_size_floor ≼ p.cfg.vol_size_cap
        → ratio 1 (10 ^ 9) ≼ p.cfg.max_gross_exposure_usd
        → ratio 1 (10 ^ 9) ≺ v.realized_vol_bps
        → lit 0 ≼ multiplier_at p.cfg.regime_multipliers v.vol_regime
        → Share p.cfg (p.peak_pnl ⊖ p.realized) share
        → let m = multiplier_at p.cfg.regime_multipliers v.vol_regime in
          (lit 0 ≼ size_multiplier v p)
          × (size_multiplier v p ≼ p.cfg.vol_size_cap)
          × (size_multiplier v p ≼ m ⊗ p.cfg.vol_size_cap ⊗ share)
          × (size_multiplier v p
              ≼ m ⊗ max p.cfg.vol_size_floor (targeted p.cfg v.realized_vol_bps) ⊗ share)
    unfolding size_multiplier
    size_multiplier-bounds v p share floor cap gross vol pos cut =
        let c = p.cfg in
        let m = multiplier_at c.regime_multipliers v.vol_regime in
        let goal = targeted c v.realized_vol_bps in
        let size = max c.vol_size_floor (min c.vol_size_cap goal) in
        let pos' = le_trans _ _ _ floor (Order.le-max_left laws c.vol_size_floor _) in
        let below_cap =
          Order.max-le laws c.vol_size_floor _ _ cap (Order.min-le_left laws c.vol_size_cap goal) in
        let below_goal =
          Order.max-le laws c.vol_size_floor (min c.vol_size_cap goal) _
            (Order.le-max_left laws c.vol_size_floor goal)
            (le_trans _ _ _ (Order.min-le_right laws c.vol_size_cap goal)
              (Order.le-max_right laws c.vol_size_floor goal)) in
        let dd = p.peak_pnl ⊖ p.realized in
        rw (regime_multiplier-at c.regime_multipliers v.vol_regime, vol_scale-eq c v m gross vol)
          (
            Order.le-max_left laws _ _,
            Order.max-le laws _ _ _ (le_trans _ _ _ floor cap) (Order.min-le_left laws _ _),
            clamped-le c dd share m size c.vol_size_cap pos pos' below_cap cut,
            clamped-le c dd share m size (max c.vol_size_floor goal) pos pos' below_goal cut,
          )
