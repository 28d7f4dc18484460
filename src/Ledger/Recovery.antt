-- ===== src/Ledger/Recovery.antt =====
-- execution/ledger.py, positions.py and runtime.py: a restart from the log of position fills.
use liquidity_bot.Prelude.{
  ℕ, ◌≡◌, refl, ap, Option, none, some, List, [], ◌∷◌, ◌++◌, ◌∙◌, false, arith, ◌==◌, ==_iff,
  Bool-cases, inl, inr, Dict, lookup, insert, lookup-insert_self, lookup-insert_ne,
}
use liquidity_bot.LogFile.{empty_file, append_row-lines, append_row-ended}
use liquidity_bot.Float.{Float, IsOrdered}
use liquidity_bot.Models.{Symbol, Time, Signal, Fill, Position, Quote, mid, update_excursions}
use liquidity_bot.Models.Features.{FeatureVector}
use liquidity_bot.Positions.{
  ExitReason, PositionManager, on_entry_fill, on_exit_fill, check_exits, check_position,
  check_features,
}
use liquidity_bot.Ledger.PositionLog.{
  PositionEvent, entry, exit, PositionEventLog, Book, append_fill, net, net_all, rebuilt,
  rebuild_all, or_average, rebuild_positions,
}
use liquidity_bot.Ledger.Refinement.{
  Matches, Agree, AgreeAt, Agree-cases, differs, entry-AgreeAt, exit-AgreeAt,
}

-- what happens to the positions: fills, which are logged, and checks of the exit rules at a quote
pub data Op (F : Type 0) : Type 0 where
  enters : Fill F → Signal F → Op F
  leaves : Fill F → ExitReason → Op F
  checks : Quote F → Option (FeatureVector F) → Time → ℕ → Op F

module _ {F : Type 0} ⦃f : Float F⦄ where
  unfoldable pub perform :
      Op F → PositionManager F × PositionEventLog F → PositionManager F × PositionEventLog F
  perform (enters fill sig) (pm, log) =
      (on_entry_fill fill sig pm, append_fill (entry fill sig) log)
  perform (leaves fill r) (pm, log) = ((on_exit_fill fill r pm).0, append_fill (exit fill) log)
  perform (checks q v now most) (pm, log) = ((check_exits q v now most pm).0, log)

  unfoldable pub perform_all :
      List (Op F) → PositionManager F × PositionEventLog F → PositionManager F × PositionEventLog F
  perform_all [] s = s
  perform_all (op ∷ ops) s = perform_all ops (perform op s)

  -- a position that has been rebuilt, and the live one: all but the average price and the excursions
  pub record Rebuilt (r p : Position F) : Type 0 where
    pub side : r.side ≡ p.side
    pub quantity : r.quantity ≡ p.quantity
    pub opened_at : r.opened_at ≡ p.opened_at
    pub stop_price : r.stop_price ≡ or_average p.stop_price r.entry_price
    pub target_price : r.target_price ≡ or_average p.target_price r.entry_price
    pub action : r.action ≡ p.action

  abbrev pub Refines : Option (Position F) → Option (Position F) → Type 0
  Refines none none = Unit {0}
  Refines (some r) (some p) = Rebuilt r p
  Refines _ _ = ⊥

  net_all-append :
      (rows : List (Option (PositionEvent F))) (e : PositionEvent F) (book : Dict (Book F))
      → net_all (rows ++ (some e ∷ [])) book ≡ net e (net_all rows book)
  unfolding net_all
  net_all-append [] e book = refl
  net_all-append (none ∷ rows) e book = net_all-append rows e book
  net_all-append (some x ∷ rows) e book = net_all-append rows e (net x book)

  append_fill-net :
      (log : PositionEventLog F) (e : PositionEvent F)
      → log.unended ≡ false
      → net_all (append_fill e log).lines [] ≡ net e (net_all log.lines [])
  unfolding append_fill
  append_fill-net log e ended =
      ap (λ rows. net_all rows []) (append_row-lines e log ended) ∙ net_all-append log.lines e []

  append_fill-ended :
      (log : PositionEventLog F) (e : PositionEvent F) → (append_fill e log).unended ≡ false
  unfolding append_fill
  append_fill-ended log e = append_row-ended e log

  check_position-positions :
      (q : Quote F) (v : Option (FeatureVector F)) (now : Time) (most : ℕ) (pm : PositionManager F)
      (p : Position F)
      → (check_position q v now most pm p).0.positions ≡ pm.positions
  unfolding check_position check_features
  check_position-positions q v now most pm p = ground arith

  excursions-Matches :
      (mark : F) (b : Book F) (p : Position F) → Matches b p → Matches b (update_excursions mark p)
  unfolding update_excursions
  excursions-Matches mark b p m = record {
    side = m.side;
    qty = m.qty;
    ts = m.ts;
    stop = m.stop;
    tgt = m.tgt;
    action = m.action;
  }

  checks-AgreeAt :
      (q : Quote F) (v : Option (FeatureVector F)) (now : Time) (most : ℕ) (book : Dict (Book F))
      (pm : PositionManager F)
      → ((s : Symbol) → AgreeAt book pm.positions s)
      → (s : Symbol) → AgreeAt book (check_exits q v now most pm).0.positions s
  unfolding check_exits
  checks-AgreeAt q v now most book pm h s =
      let k = q.symbol in
      elim (Agree-cases (lookup k book) (lookup k pm.positions) (h k)) [
        | inl (_, e) ↦ rw e (h s)
        | inr (b, p, e, j, m) ↦
            let p' = update_excursions (mid q) p in
            let pm' = record pm { positions = insert k p' pm.positions } in
            rw (j, check_position-positions q v now most pm' p')
              (elim (Bool-cases (s == k)) [
                | inl same ↦
                    rw ((==_iff s k).0 same, e, lookup-insert_self k p' pm.positions)
                      (excursions-Matches (mid q) b p m)
                | inr other ↦ rw (lookup-insert_ne s k p' pm.positions (differs s k other)) (h s)
              ])
      ]

  lookup-rebuild_all :
      (s : Symbol) (book : Dict (Book F)) (o : Option (Position F))
      → Agree (lookup s book) o
      → Refines (lookup s (rebuild_all book)) o
  unfolding rebuild_all rebuilt
  lookup-rebuild_all s [] none h = tt
  lookup-rebuild_all s [] (some p) h = absurd h
  lookup-rebuild_all s ((k, b) ∷ d) o h = elim (Bool-cases (s == k)) [
    | inl e ↦ rw e (here b o (rw e at h))
    | inr ne ↦ rw ne (lookup-rebuild_all s d o (rw ne at h))
  ]
    where
      here :
          (b : Book F) (o : Option (Position F)) → Agree (some b) o → Refines (some (rebuilt k b)) o
      here b none h = absurd h
      here b (some p) m = record {
        side = m.side;
        quantity = m.qty;
        opened_at = m.ts;
        stop_price = ap (λ x. or_average x (rebuilt k b).entry_price) m.stop;
        target_price = ap (λ x. or_average x (rebuilt k b).entry_price) m.tgt;
        action = m.action;
      }

  module _ (laws : IsOrdered F) where
    -- the log of a position manager ends with a newline, and nets to what is held
    abbrev IsLogged : PositionManager F × PositionEventLog F → Type 0
    IsLogged (pm, log) =
        (log.unended ≡ false) × ((s : Symbol) → AgreeAt (net_all log.lines []) pm.positions s)

    perform-IsLogged :
        (op : Op F) (s : PositionManager F × PositionEventLog F)
        → IsLogged s
        → IsLogged (perform op s)
    unfolding perform
    perform-IsLogged (enters fill sig) (pm, log) (ended, h) = (
      append_fill-ended log (entry fill sig),
      rw (append_fill-net log (entry fill sig) ended)
          (entry-AgreeAt laws fill sig (net_all log.lines []) pm h),
    )
    perform-IsLogged (leaves fill r) (pm, log) (ended, h) = (
      append_fill-ended log (exit fill),
      rw (append_fill-net log (exit fill) ended)
          (exit-AgreeAt laws fill r (net_all log.lines []) pm h),
    )
    perform-IsLogged (checks q v now most) (pm, log) (ended, h) =
        (ended, checks-AgreeAt q v now most (net_all log.lines []) pm h)

    perform_all-IsLogged :
        (ops : List (Op F)) (s : PositionManager F × PositionEventLog F)
        → IsLogged s
        → IsLogged (perform_all ops s)
    unfolding perform_all
    perform_all-IsLogged [] s h = h
    perform_all-IsLogged (op ∷ ops) s h =
        perform_all-IsLogged ops (perform op s) (perform-IsLogged op s h)

    -- From no positions and an empty log, after any fills and exit checks, the positions rebuilt from
    -- the log are those that are held: at each symbol none on both sides, or one with the same side,
    -- open quantity, opening time and action, and the same stop and target where these are not zero.
    pub rebuild-Refines :
        (pm : PositionManager F) (ops : List (Op F)) (s : Symbol)
        → pm.positions ≡ []
        → let (live, log) = perform_all ops (pm, empty_file) in
          Refines (lookup s (rebuild_positions log)) (lookup s live.positions)
    unfolding rebuild_positions
    rebuild-Refines pm ops s flat =
        let (live, log) = perform_all ops (pm, empty_file) in
        let start : IsLogged (pm, empty_file) = (refl, λ k. unfold net_all in rw flat tt) in
        lookup-rebuild_all s (net_all log.lines []) (lookup s live.positions)
          ((perform_all-IsLogged ops (pm, empty_file) start).1 s)
