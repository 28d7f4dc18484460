-- ===== src/Positions/Exits.antt =====
-- execution/positions.py: what `check_exits` instructs.
use liquidity_bot.Prelude.{
  ℕ, ◌+◌, ◌*◌, ◌<◌, ◌≡◌, refl, ap, ◌∙◌, Bool, true, Option, some, arith, inl, inr, Option-cases,
  ltb, if◌then◌else◌, lookup, insert,
}
use liquidity_bot.Float.{Float, le}
use liquidity_bot.Models.{Time, opposite, is_buy, Quote, Position, mid, update_excursions}
use liquidity_bot.Models.Features.{FeatureVector}
use liquidity_bot.Positions.{
  ExitReason, ExitInstruction, PositionManager, price_exit, instruction, check_features,
  check_position, check_exits,
}

module _ {F : Type 0} ⦃f : Float F⦄ where
  -- what an instruction says to sell or buy, for a position
  abbrev pub Closes : Position F → ExitInstruction F → Type 0
  Closes pos i =
      (i.symbol ≡ pos.symbol)
      × (i.side ≡ opposite pos.side)
      × (i.quantity ≡ pos.quantity)
      × (i.trace_id ≡ pos.trace_id)

  update_excursions-keeps :
      (mark : F) (pos : Position F)
      → let pos' = update_excursions mark pos in
        (pos'.symbol ≡ pos.symbol)
        × (pos'.side ≡ pos.side)
        × (pos'.quantity ≡ pos.quantity)
        × (pos'.trace_id ≡ pos.trace_id)
        × (pos'.stop_price ≡ pos.stop_price)
        × (pos'.opened_at ≡ pos.opened_at)
  unfolding update_excursions
  update_excursions-keeps mark pos = (refl, refl, refl, refl, refl, refl)

  update_excursions-instruction :
      (mark : F) (pos : Position F) (r : ExitReason)
      → instruction (update_excursions mark pos) r ≡ instruction pos r
  unfolding update_excursions
  update_excursions-instruction mark pos r = refl

  check_position-Closes :
      (q : Quote F) (v : Option (FeatureVector F)) (now : Time) (most : ℕ) (pm : PositionManager F)
      (pos : Position F) (i : ExitInstruction F)
      → (check_position q v now most pm pos).1 ≡ some i
      → Closes pos i
  unfolding check_position check_features
  check_position-Closes q v now most pm pos i h = ground arith

  -- An instruction of `check_exits` asks for the whole quantity of the position of the quote's symbol,
  -- on the other side and under the position's trace.
  pub check_exits-Closes :
      (q : Quote F) (v : Option (FeatureVector F)) (now : Time) (most : ℕ) (pm : PositionManager F)
      (i : ExitInstruction F)
      → (check_exits q v now most pm).1 ≡ some i
      → (pos : Position F) × (lookup q.symbol pm.positions ≡ some pos)
        × (i.symbol ≡ pos.symbol)
        × (i.side ≡ opposite pos.side)
        × (i.quantity ≡ pos.quantity)
        × (i.trace_id ≡ pos.trace_id)
  unfolding check_exits
  check_exits-Closes q v now most pm i h = elim (Option-cases (lookup q.symbol pm.positions)) [
    | inl e ↦ ground arith
    | inr (pos, e) ↦
        let pos' = update_excursions (mid q) pos in
        let pm' = record pm { positions = insert q.symbol pos' pm.positions } in
        let (symbol, side, quantity, trace) =
          check_position-Closes q v now most pm' pos' i (rw e at h) in
        let (symbol', side', quantity', trace', _, _) = update_excursions-keeps (mid q) pos in
        (pos, e, symbol ∙ symbol', side ∙ ap opposite side', quantity ∙ quantity', trace ∙ trace')
  ]

  -- the price at or beyond the position's stop
  abbrev pub is_stopped : F → Position F → Bool
  is_stopped mark pos = if is_buy pos.side then le mark pos.stop_price else le pos.stop_price mark

  check_exits-some :
      (q : Quote F) (v : Option (FeatureVector F)) (now : Time) (most : ℕ) (pm : PositionManager F)
      (pos : Position F) (r : ExitReason)
      → lookup q.symbol pm.positions ≡ some pos
      → (let pos' = update_excursions (mid q) pos in
          price_exit q now most (record pm { positions = insert q.symbol pos' pm.positions }) pos'
          ≡ some r)
      → (check_exits q v now most pm).1 ≡ some (instruction pos r)
  unfolding check_exits check_position
  check_exits-some q v now most pm pos r e h =
      rw (e, h) (ap some (update_excursions-instruction (mid q) pos r))

  price_exit-late :
      (q : Quote F) (now : Time) (most : ℕ) (pm : PositionManager F) (pos : Position F)
      → pos.opened_at + most * 1_000_000 < now
      → (r : ExitReason) × (price_exit q now most pm pos ≡ some r)
  unfolding price_exit
  price_exit-late q now most pm pos h =
      let late : ltb (pos.opened_at + most * 1_000_000) now ≡ true = ground arith in
      elim (Option-cases (price_exit q now most pm pos)) [
        | inl e ↦ ground arith
        | inr (r, e) ↦ (r, e)
      ]

  -- For a position held beyond the longest holding time, `check_exits` instructs to exit at the next
  -- quote of its symbol.
  pub holding-exits :
      (q : Quote F) (v : Option (FeatureVector F)) (now : Time) (most : ℕ) (pm : PositionManager F)
      (pos : Position F)
      → lookup q.symbol pm.positions ≡ some pos
      → pos.opened_at + most * 1_000_000 < now
      → (r : ExitReason) × ((check_exits q v now most pm).1 ≡ some (instruction pos r))
  holding-exits q v now most pm pos e late =
      let pos' = update_excursions (mid q) pos in
      let pm' = record pm { positions = insert q.symbol pos' pm.positions } in
      let (_, _, _, _, _, opened) = update_excursions-keeps (mid q) pos in
      let late' : pos'.opened_at + most * 1_000_000 < now = rw opened late in
      let (r, h) = price_exit-late q now most pm' pos' late' in
      (r, check_exits-some q v now most pm pos r e h)
