-- ===== src/Risk/Sizing.antt =====
-- execution/risk.py: the bounds of `size`.
use liquidity_bot.Prelude.{◌≡◌, false, arith, Bool-cases, inl, inr}
use liquidity_bot.Float.{Float, IsOrdered, ◌⊖◌, ◌⊘◌, lit, le, ◌≼◌, ◌≺◌, min, abs, trunc}
use liquidity_bot.Float.Order
use liquidity_bot.Models.{Signal}
use liquidity_bot.Config.{RiskConfig}
use liquidity_bot.Risk.{size}

module _ {F : Type 0} ⦃f : Float F⦄ (laws : IsOrdered F) where
  open laws use {le_refl, le_trans, trunc_bounds, lt-eq-not-le}

  trunc-min-le :
      (x y z : F)
      → lit 0 ≼ min (min x y) z
      → (lit 0 ≼ trunc (min (min x y) z))
        × (trunc (min (min x y) z) ≼ x)
        × (trunc (min (min x y) z) ≼ y)
        × (trunc (min (min x y) z) ≼ z)
  trunc-min-le x y z h =
      let low = min (min x y) z in
      let (nonneg, below) = trunc_bounds low h in
      let least : low ≼ min x y = Order.min-le_left laws _ z in
      (
        nonneg,
        le_trans _ _ _ below (le_trans _ _ _ least (Order.min-le_left laws x y)),
        le_trans _ _ _ below (le_trans _ _ _ least (Order.min-le_right laws x y)),
        le_trans _ _ _ below (Order.min-le_right laws _ z),
      )

  -- With a positive price and budgets that are not negative, the size is not negative. It is at most
  -- the share limit, and where it is not zero by the stop lying at the price, at most the risk budget
  -- over the stop distance and the symbol's notional limit over the price.
  pub size_bounds :
      (cfg : RiskConfig F) (s : Signal F)
      → lit 0 ≺ s.reference_price
      → lit 0 ≼ cfg.risk_per_trade_usd
      → lit 0 ≼ cfg.max_notional_per_symbol_usd
      → lit 0 ≼ cfg.max_position_shares
      → let distance = abs (s.reference_price ⊖ s.stop_price) in
        (lit 0 ≼ size cfg s)
        × (size cfg s ≼ cfg.max_position_shares)
        × (le distance (lit 0) ≡ false
            → (size cfg s ≼ cfg.risk_per_trade_usd ⊘ distance)
              × (size cfg s ≼ cfg.max_notional_per_symbol_usd ⊘ s.reference_price))
  unfolding size
  size_bounds cfg s price risk notional shares =
      elim (Bool-cases (le (abs (s.reference_price ⊖ s.stop_price)) (lit 0))) [
        | inl at_price ↦ rw at_price (le_refl (lit 0), shares, λ e. cc)
        | inr apart ↦
            let away : lit 0 ≺ abs (s.reference_price ⊖ s.stop_price) =
              ground (arith, lt-eq-not-le (lit 0) (abs (s.reference_price ⊖ s.stop_price))) in
            let by_risk = Order.div_nonneg laws _ _ risk away in
            let by_notional = Order.div_nonneg laws _ _ notional price in
            let (nonneg, below_risk, below_notional, below_shares) =
              trunc-min-le _ _ _
                (Order.le-min laws _ _ _ (Order.le-min laws _ _ _ by_risk by_notional) shares) in
            rw apart (nonneg, below_shares, λ _. (below_risk, below_notional))
      ]
