-- ===== src/Portfolio/Governor.antt =====
-- execution/risk2.py: the limits of an approval, and the halt by drawdown.
use liquidity_bot.Prelude.{
  ℕ, ◌≡◌, refl, sym, Bool, true, false, none, some, List, [], ◌∷◌, arith, lookup, ◌<◌, length,
  contains, All, if◌then◌else◌, Bool-cases, inl, inr,
}
use liquidity_bot.Float.{Float, ◌⊕◌, ◌⊖◌, le, ◌≼◌, max, abs}
use liquidity_bot.Models.{Symbol, Signal}
use liquidity_bot.Portfolio.{
  PortfolioRiskConfig, PortfolioRisk, halt_on_drawdown, on_trade_closed, approve, sector_verdict,
  cluster_full, count_open, in_sector,
}

-- the elements that pass a test
abbrev pub filter : (Symbol → Bool) → List Symbol → List Symbol
filter test [] = []
filter test (s ∷ ss) = if test s then s ∷ filter test ss else filter test ss

count_open-filter :
    (test : Symbol → Bool) (ss : List Symbol) → count_open test ss ≡ length (filter test ss)
unfolding count_open
count_open-filter test [] = refl
count_open-filter test (s ∷ ss) = elim (Bool-cases (test s)) [
  | inl passes ↦ rw passes (omega (arith, count_open-filter test ss))
  | inr fails ↦ rw fails (omega (arith, count_open-filter test ss))
]

cluster_full-none :
    (positions : List Symbol) (most : ℕ) (s : Symbol) (clusters : List (List Symbol))
    → cluster_full positions most s clusters ≡ false
    → All
        (λ cluster.
          contains s cluster ≡ true → length (filter (λ t. contains t cluster) positions) < most)
        clusters
unfolding cluster_full
cluster_full-none positions most s [] h = tt
cluster_full-none positions most s (cluster ∷ clusters) h =
    let same = count_open-filter (λ t. contains t cluster) positions in
    (
      λ held.
          let few : count_open (λ t. contains t cluster) positions < most = ground arith in
          rw (sym same) few,
      cluster_full-none positions most s clusters (ground arith),
    )

module _ {F : Type 0} ⦃f : Float F⦄ where
  -- the reports of closed trades of a day, in order
  unfoldable pub close_all : ℕ → List F → PortfolioRisk F → PortfolioRisk F
  close_all today [] p = p
  close_all today (pnl ∷ pnls) p = close_all today pnls (on_trade_closed today pnl p)

  closed-halted :
      (today : ℕ) (pnl : F) (p : PortfolioRisk F)
      → p.halted ≡ true
      → (on_trade_closed today pnl p).halted ≡ true
  unfolding on_trade_closed halt_on_drawdown
  closed-halted today pnl p h = ground arith

  close_all-halted :
      (today : ℕ) (pnls : List F) (p : PortfolioRisk F)
      → p.halted ≡ true
      → (close_all today pnls p).halted ≡ true
  unfolding close_all
  close_all-halted today [] p h = h
  close_all-halted today (pnl ∷ pnls) p h =
      close_all-halted today pnls (on_trade_closed today pnl p) (closed-halted today pnl p h)

  drawdown-halts :
      (today : ℕ) (pnl : F) (p : PortfolioRisk F)
      → p.cfg.dd_halt_usd ≼ max p.peak_pnl (p.realized ⊕ pnl) ⊖ (p.realized ⊕ pnl)
      → (on_trade_closed today pnl p).halted ≡ true
  unfolding on_trade_closed halt_on_drawdown
  drawdown-halts today pnl p h = ground arith

  halted-refuses :
      (sig : Signal F) (positions : List Symbol) (gross net reserved : F) (p : PortfolioRisk F)
      → p.halted ≡ true
      → (approve sig positions gross net reserved p).0 ≡ false
  unfolding approve
  halted-refuses sig positions gross net reserved p h = rw h

  -- Once a closed trade brings the drawdown from the day's peak to the halt level, no signal is
  -- approved any more, whatever trades close later.
  pub drawdown-refuses :
      (today : ℕ) (pnl : F) (later : List F) (p : PortfolioRisk F) (sig : Signal F)
      (positions : List Symbol) (gross net reserved : F)
      → p.cfg.dd_halt_usd ≼ max p.peak_pnl (p.realized ⊕ pnl) ⊖ (p.realized ⊕ pnl)
      → (approve sig positions gross net reserved
          (close_all today later (on_trade_closed today pnl p))).0
        ≡ false
  drawdown-refuses today pnl later p sig positions gross net reserved h =
      halted-refuses sig positions gross net reserved _
        (close_all-halted today later _ (drawdown-halts today pnl p h))

  -- What an approved signal has been checked for: the exposures, with what pending orders reserve,
  -- stay below the limits, and so does the number of the positions in its sector and in each of the
  -- clusters that hold it.
  pub record Permits (sig : Signal F) (positions : List Symbol) (gross net reserved : F)
      (p : PortfolioRisk F) : Type 0 where
    pub running : p.halted ≡ false
    pub gross_within : le p.cfg.max_gross_exposure_usd (gross ⊕ reserved) ≡ false
    pub net_within : le p.cfg.max_net_exposure_usd (abs net) ≡ false
    pub sector_within :
        (sector : ℕ)
        → lookup sig.symbol p.cfg.sector_map ≡ some sector
        → length (filter (in_sector p.cfg.sector_map sector) positions)
          < p.cfg.max_positions_per_sector
    pub clusters_within :
        All
          (λ cluster.
            contains sig.symbol cluster ≡ true
            → length (filter (λ s. contains s cluster) positions) < p.cfg.max_positions_per_cluster)
          p.cfg.clusters

  sector_verdict-none :
      (positions : List Symbol) (c : PortfolioRiskConfig F) (s : Symbol) (sector : ℕ)
      → sector_verdict positions c s ≡ none
      → lookup s c.sector_map ≡ some sector
      → length (filter (in_sector c.sector_map sector) positions) < c.max_positions_per_sector
  unfolding sector_verdict
  sector_verdict-none positions c s sector h e =
      let same = count_open-filter (in_sector c.sector_map sector) positions in
      let few : count_open (in_sector c.sector_map sector) positions < c.max_positions_per_sector =
        ground arith in
      rw (sym same) few

  -- A signal is approved only when the day is not halted, the gross exposure with what is reserved and
  -- the net exposure are below their limits, and fewer positions than the limit are open in the signal's
  -- sector, where it has one, and in each of the clusters that hold its symbol.
  pub approve-Permits :
      (sig : Signal F) (positions : List Symbol) (gross net reserved : F) (p : PortfolioRisk F)
      → (approve sig positions gross net reserved p).0 ≡ true
      → Permits sig positions gross net reserved p
  unfolding approve
  approve-Permits sig positions gross net reserved p h = record {
    running = ground arith;
    gross_within = ground arith;
    net_within = ground arith;
    sector_within =
        λ sector e. sector_verdict-none positions p.cfg sig.symbol sector (ground arith) e;
    clusters_within =
        cluster_full-none positions p.cfg.max_positions_per_cluster sig.symbol p.cfg.clusters
          (ground arith);
  }
