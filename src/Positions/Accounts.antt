-- ===== src/Positions/Accounts.antt =====
-- execution/positions.py: what one exit fill books.
use liquidity_bot.Prelude.{
  ◌≡◌, refl, ap, ◌∙◌, true, false, none, some, [], ◌∷◌, ◌++◌, inl, inr, Bool-cases, ◌⊎◌, lookup,
  lookup-insert_self, lookup-erase_self,
}
use liquidity_bot.Float.{Float, IsOrdered, IsExact, ◌⊕◌, ◌⊖◌, ◌⊗◌, ◌≼◌, lit, min}
use liquidity_bot.Float.Order
use liquidity_bot.Models.{Side, Fill, Position, signed}
use liquidity_bot.Positions.{
  ExitReason, ClosedTrade, PositionManager, reduced, closed_trade, settle_exit, is_open,
  on_exit_fill,
}

-- what has become of a position: the quantity left open, the exited one and the realized profit
pub record Account (F : Type 0) : Type 0 where
  pub left : F
  pub exited : F
  pub realized : F

module _ {F : Type 0} ⦃f : Float F⦄ where
  abbrev pub account_of : Position F → Account F
  account_of pos = record {
    left = pos.quantity;
    exited = pos.exited_qty;
    realized = pos.realized_pnl;
  }

  -- what has been exited and what is still open
  abbrev pub whole : Position F → F
  whole pos = pos.exited_qty ⊕ pos.quantity

  -- one fill that exits, from a position on this side and at this entry price
  abbrev pub chunk : Side → F → Fill F → Account F → Account F
  chunk side price fill a =
      let qty = min fill.quantity a.left in
      record {
        left = a.left ⊖ qty;
        exited = a.exited ⊕ qty;
        realized = a.realized ⊕ signed side (fill.price ⊖ price) ⊗ qty;
      }

module _ {F : Type 0} ⦃f : Float F⦄ (laws : IsOrdered F) (exact : IsExact F) where
  open laws use {add_comm, sub_mono, sub-self}
  open exact use {add_assoc, sub-add}

  moved-between : (a b c : F) → a ⊕ c ⊕ (b ⊖ c) ≡ a ⊕ b
  moved-between a b c = add_assoc a c (b ⊖ c) ∙ ap (λ x. a ⊕ x) (add_comm c (b ⊖ c) ∙ sub-add b c)

  -- what an exit fill leaves of its position: the account has one chunk more, the sum of the exited and
  -- the open quantity is the same, and the open quantity is not negative
  abbrev pub Books : Fill F → Position F → Position F → Type 0
  Books fill pos pos' =
      (pos'.side ≡ pos.side)
      × (pos'.entry_price ≡ pos.entry_price)
      × (account_of pos' ≡ chunk pos.side pos.entry_price fill (account_of pos))
      × (whole pos' ≡ whole pos)
      × (lit 0 ≼ pos'.quantity)

  reduced-Books : (fill : Fill F) (pos : Position F) → Books fill pos (reduced fill pos)
  unfolding reduced
  reduced-Books fill pos =
      let q = pos.quantity in
      let qty = min fill.quantity q in
      (
        refl,
        refl,
        refl,
        moved-between pos.exited_qty q qty,
        Order.sub_nonneg laws q qty (Order.min-le_right laws fill.quantity q),
      )

  settle-open :
      (fill : Fill F) (r : ExitReason) (pm : PositionManager F) (pos : Position F)
      → is_open pos ≡ true
      → ((settle_exit fill r pm pos).1 ≡ none)
        × (lookup fill.symbol (settle_exit fill r pm pos).0.positions ≡ some pos)
        × ((settle_exit fill r pm pos).0.closed ≡ pm.closed)
  unfolding settle_exit
  settle-open fill r pm pos h = rw h (refl, lookup-insert_self fill.symbol pos pm.positions, refl)

  settle-closed :
      (fill : Fill F) (r : ExitReason) (pm : PositionManager F) (pos : Position F)
      → is_open pos ≡ false
      → (trade : ClosedTrade F) × ((settle_exit fill r pm pos).1 ≡ some trade)
        × (lookup fill.symbol (settle_exit fill r pm pos).0.positions ≡ none)
        × ((settle_exit fill r pm pos).0.closed ≡ pm.closed ++ (trade ∷ []))
        × (trade.quantity ≡ pos.exited_qty)
        × (trade.pnl ≡ pos.realized_pnl)
  unfolding settle_exit closed_trade
  settle-closed fill r pm pos h =
      rw h (
        closed_trade fill r pos,
        refl,
        lookup-erase_self fill.symbol pm.positions,
        refl,
        refl,
        refl,
      )

  -- An exit fill of an open position books one chunk. It then either leaves the position open with
  -- nothing reported, or removes it and reports one trade of all that its account has.
  pub on_exit_fill-Books :
      (fill : Fill F) (r : ExitReason) (pm : PositionManager F) (pos : Position F)
      → lookup fill.symbol pm.positions ≡ some pos
      → let (pm', t) = on_exit_fill fill r pm in
        (pos' : Position F) × Books fill pos pos'
        × ((t ≡ none) × (lookup fill.symbol pm'.positions ≡ some pos') × (pm'.closed ≡ pm.closed)
            ⊎ (trade : ClosedTrade F) × (t ≡ some trade)
              × (lookup fill.symbol pm'.positions ≡ none)
              × (pm'.closed ≡ pm.closed ++ (trade ∷ []))
              × (trade.quantity ≡ pos'.exited_qty)
              × (trade.pnl ≡ pos'.realized_pnl))
  unfolding on_exit_fill
  on_exit_fill-Books fill r pm pos e =
      let pos' = reduced fill pos in
      let books = reduced-Books fill pos in
      elim (Bool-cases (is_open pos')) [
        | inl more ↦ rw e (pos', books, inl (settle-open fill r pm pos' more))
        | inr over ↦ rw e (pos', books, inr (settle-closed fill r pm pos' over))
      ]
