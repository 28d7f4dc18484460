-- ===== src/Portfolio/Restart.antt =====
-- execution/risk2.py, execution/ledger.py and runtime.py: what a restart restores of the day. As in
-- `SessionEngine._on_fill`, a closed trade is reported to the portfolio's risk, which may append a
-- halt, and then appended to the ledger.
use liquidity_bot.Prelude.{
  ℕ, ◌≡◌, refl, ◌∙◌, true, false, not, ◌&&◌, List, [], ◌∷◌, arith, Bool-cases, inl, inr,
}
use liquidity_bot.LogFile.{empty_file}
use liquidity_bot.Float.{Float, IsOrdered, ◌⊕◌, ◌⊖◌, lit, le, ◌≼◌, max}
use liquidity_bot.Float.Order
use liquidity_bot.Ledger.{
  trade_closed, halt, DayState, append, new_day, read_kind, load_day, load_from, load_day-append,
  append-ended,
}
use liquidity_bot.Portfolio.{
  PortfolioRiskConfig, PortfolioRisk, restore, halt_on_drawdown, on_trade_closed,
}

module _ {F : Type 0} ⦃f : Float F⦄ where
  unfoldable pub started : PortfolioRiskConfig F → PortfolioRisk F
  started c = record {
    cfg = c;
    ledger = empty_file;
    peak_pnl = lit 0;
    realized = lit 0;
    halted = false;
  }

  -- the reports of `_on_fill` for a trade that is closed
  unfoldable pub report : ℕ → F → PortfolioRisk F → PortfolioRisk F
  report today pnl p =
      let p' = on_trade_closed today pnl p in
      record p' { ledger = append today (trade_closed pnl) p'.ledger }

  unfoldable pub report_all : ℕ → List F → PortfolioRisk F → PortfolioRisk F
  report_all today [] p = p
  report_all today (pnl ∷ pnls) p = report_all today pnls (report today pnl p)

  -- The ledger agrees with the live accounts.
  abbrev IsRecorded : ℕ → PortfolioRisk F → Type 0
  IsRecorded today p =
      ((load_day today p.ledger).realized_pnl ≡ p.realized)
      × ((load_day today p.ledger).halted ≡ p.halted)
      × (p.ledger.unended ≡ false)

  halt_on_drawdown-IsRecorded :
      (today : ℕ) (p : PortfolioRisk F)
      → (load_day today p.ledger).halted ≡ p.halted
      → p.ledger.unended ≡ false
      → ((load_day today (halt_on_drawdown today p).ledger).realized_pnl
          ≡ (load_day today p.ledger).realized_pnl)
        × ((load_day today (halt_on_drawdown today p).ledger).halted
            ≡ (halt_on_drawdown today p).halted)
        × ((halt_on_drawdown today p).realized ≡ p.realized)
        × ((halt_on_drawdown today p).ledger.unended ≡ false)
  unfolding halt_on_drawdown read_kind
  halt_on_drawdown-IsRecorded today p h ended =
      elim (Bool-cases (le p.cfg.dd_halt_usd (p.peak_pnl ⊖ p.realized) && not p.halted)) [
        | inl falls ↦
            let (sum, stops, same) = read_halt (load_day today p.ledger) in
            rw (falls, load_day-append today halt p.ledger ended)
              (sum, stops, same, append-ended today halt p.ledger)
        | inr stays ↦ rw stays (refl, h, refl, ended)
      ]
    where
      read_halt :
          (s : DayState F)
          → ((read_kind halt s).realized_pnl ≡ s.realized_pnl)
            × ((read_kind halt s).halted ≡ true)
            × (p.realized ≡ p.realized)
      read_halt s = (refl, refl, refl)

  closed-IsRecorded :
      (today : ℕ) (pnl : F) (p : PortfolioRisk F)
      → IsRecorded today p
      → let p' = on_trade_closed today pnl p in
        ((load_day today p'.ledger).realized_pnl ⊕ pnl ≡ p'.realized)
        × ((load_day today p'.ledger).halted ≡ p'.halted)
        × (p'.ledger.unended ≡ false)
  unfolding on_trade_closed
  closed-IsRecorded today pnl p (sum, flag, ended) =
      let realized = p.realized ⊕ pnl in
      let q = record p { realized = realized; peak_pnl = max p.peak_pnl realized } in
      let (kept, halts, same, ended') = halt_on_drawdown-IsRecorded today q flag ended in
      (rw (kept, sum, same) refl, halts, ended')

  read_trade :
      (pnl : F) (s : DayState F)
      → ((read_kind (trade_closed pnl) s).realized_pnl ≡ s.realized_pnl ⊕ pnl)
        × ((read_kind (trade_closed pnl) s).halted ≡ s.halted)
  unfolding read_kind
  read_trade pnl s = (refl, refl)

  report-IsRecorded :
      (today : ℕ) (pnl : F) (p : PortfolioRisk F)
      → IsRecorded today p
      → IsRecorded today (report today pnl p)
  unfolding report
  report-IsRecorded today pnl p h =
      let p' = on_trade_closed today pnl p in
      let (sum, flag, ended) = closed-IsRecorded today pnl p h in
      let (adds, keeps) = read_trade pnl (load_day today p'.ledger) in
      rw (load_day-append today (trade_closed pnl) p'.ledger ended)
        (adds ∙ sum, keeps ∙ flag, append-ended today (trade_closed pnl) p'.ledger)

  report_all-IsRecorded :
      (today : ℕ) (pnls : List F) (p : PortfolioRisk F)
      → IsRecorded today p
      → IsRecorded today (report_all today pnls p)
  unfolding report_all
  report_all-IsRecorded today [] p h = h
  report_all-IsRecorded today (pnl ∷ pnls) p h =
      report_all-IsRecorded today pnls (report today pnl p) (report-IsRecorded today pnl p h)

  started-IsRecorded : (today : ℕ) (c : PortfolioRiskConfig F) → IsRecorded today (started c)
  unfolding started load_day load_from new_day
  started-IsRecorded today c = (refl, refl, refl)

  -- After any trades of a day, restoring from the ledger gives the realized profit and the halt that
  -- were in force before the restart.
  pub restore-recovers :
      (today : ℕ) (c : PortfolioRiskConfig F) (pnls : List F)
      → let p = report_all today pnls (started c) in
        ((restore today p).realized ≡ p.realized) × ((restore today p).halted ≡ p.halted)
  unfolding restore
  restore-recovers today c pnls =
      let (sum, flag, _) =
        report_all-IsRecorded today pnls (started c) (started-IsRecorded today c) in
      (sum, flag)

  module _ (laws : IsOrdered F) where
    open laws use {le_refl, le_trans}

    -- the peak is at least zero and the result
    abbrev IsPeak : PortfolioRisk F → Type 0
    IsPeak p = (lit 0 ≼ p.peak_pnl) × (p.realized ≼ p.peak_pnl)

    report-IsPeak :
        (today : ℕ) (pnl : F) (p : PortfolioRisk F) → IsPeak p → IsPeak (report today pnl p)
    unfolding report on_trade_closed halt_on_drawdown
    report-IsPeak today pnl p h =
        let realized = p.realized ⊕ pnl in
        let up = Order.le-max_left laws p.peak_pnl realized in
        let above = Order.le-max_right laws p.peak_pnl realized in
        let zero_up = le_trans _ _ _ h.0 up in ground arith

    report_all-IsPeak :
        (today : ℕ) (pnls : List F) (p : PortfolioRisk F)
        → IsPeak p
        → IsPeak (report_all today pnls p)
    unfolding report_all
    report_all-IsPeak today [] p h = h
    report_all-IsPeak today (pnl ∷ pnls) p h =
        report_all-IsPeak today pnls (report today pnl p) (report-IsPeak today pnl p h)

    started-IsPeak : (c : PortfolioRiskConfig F) → IsPeak (started c)
    unfolding started
    started-IsPeak c = (le_refl (lit 0), le_refl (lit 0))

    -- After any trades of a day, the peak that a restart restores is at most the peak before it, so
    -- the restored drawdown is never larger. (It can be smaller: the peak is not in the ledger.)
    pub restore-peak-le :
        (today : ℕ) (c : PortfolioRiskConfig F) (pnls : List F)
        → let p = report_all today pnls (started c) in
          ((restore today p).peak_pnl ≼ p.peak_pnl)
          × ((restore today p).peak_pnl ⊖ (restore today p).realized ≼ p.peak_pnl ⊖ p.realized)
    unfolding restore
    restore-peak-le today c pnls =
        let p = report_all today pnls (started c) in
        let (least, above) = report_all-IsPeak today pnls (started c) (started-IsPeak c) in
        let same = (report_all-IsRecorded today pnls (started c) (started-IsRecorded today c)).0 in
        let lower : max (lit 0) p.realized ≼ p.peak_pnl = Order.max-le laws _ _ _ least above in
        rw same (lower, laws.sub_mono _ _ _ lower)
