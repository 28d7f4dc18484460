-- ===== src/PaperBroker/Limits.antt =====
-- execution/paper.py: the quantities and prices of what resting orders are filled with.
use liquidity_bot.Prelude.{
  ◌^◌, ◌≡◌, refl, Bool, false, not, ◌&&◌, ◌||◌, none, some, arith, if◌then◌else◌, if_cases, inl,
  inr, All, Option-cases, subst, some_inj,
}
use liquidity_bot.Float.{Float, IsOrdered, ◌⊕◌, ◌⊖◌, lit, ratio, le, lt, ◌≼◌, min, abs}
use liquidity_bot.Float.Order
use liquidity_bot.Models.{Coid, Time, Trade, Fill, OrderRequest, is_buy}
use liquidity_bot.Config.{PaperFillConfig}
use liquidity_bot.PaperBroker.{
  RestingOrder, Turn, fill_through, fill_at, at_limit, priced_turn, trade_turn, untouched, fill_of,
}

module _ {F : Type 0} ⦃f : Float F⦄ where
  -- a fill of an order of which `done` is filled: on its side, at its limit, and of no more than what
  -- it still asks for
  pub record Fits (r : OrderRequest F) (done : F) (x : Fill F) : Type 0 where
    pub symbol : x.symbol ≡ r.symbol
    pub side : x.side ≡ r.side
    pub price : r.limit_price ≡ some x.price
    pub quantity : x.quantity ≼ r.quantity ⊖ done

  -- the order asks for something still
  abbrev pub IsOpen : RestingOrder F → Type 0
  IsOpen o = le o.request.quantity o.filled ≡ false

  -- what a turn leaves is open, as the order was, and what it fills fits the order
  abbrev pub Sound : RestingOrder F → Turn F → Type 0
  Sound o t =
      ((o' : RestingOrder F) → t.order ≡ some o' → IsOpen o') × All (Fits o.request o.filled) t.out

  untouched-Sound : (o o' : RestingOrder F) → IsOpen o' → Sound o (untouched o')
  untouched-Sound o o' h = (λ o'' e. subst IsOpen (some_inj.0 e) h, tt)

  fits :
      (k : Coid) (o : RestingOrder F) (qty limit : F) (ts : Time) (b : Bool)
      → o.request.limit_price ≡ some limit
      → qty ≼ o.request.quantity ⊖ o.filled
      → Fits o.request o.filled (fill_of k o qty limit ts b)
  fits k o qty limit ts b e h = record { symbol = refl; side = refl; price = e; quantity = h }

  closed-Sound :
      (o : RestingOrder F) (t : Turn F)
      → t.order ≡ none
      → All (Fits o.request o.filled) t.out
      → Sound o t
  closed-Sound o t e h = (λ o' k. cc, h)

  module _ (laws : IsOrdered F) where
    fill_through-Sound :
        (t : Trade F) (limit : F) (k : Coid) (o : RestingOrder F)
        → o.request.limit_price ≡ some limit
        → Sound o (fill_through t limit k o)
    unfolding fill_through
    fill_through-Sound t limit k o e =
        let qty = o.request.quantity ⊖ o.filled in
        (
          λ o' h. cc,
          if_cases (All (Fits o.request o.filled)) (lt (lit 0) qty) _ _
              (λ _. (fits k o qty limit t.ts false e (laws.le_refl qty), tt)) (λ _. tt),
        )

    fill_at-Sound :
        (t : Trade F) (limit : F) (k : Coid) (o : RestingOrder F) (spill : F)
        → o.request.limit_price ≡ some limit
        → IsOpen o
        → Sound o (fill_at t limit k o spill)
    unfolding fill_at
    fill_at-Sound t limit k o spill e open_order =
        let qty = min spill (o.request.quantity ⊖ o.filled) in
        let o' = record o { filled = o.filled ⊕ qty } in
        let fit =
          fits k o qty limit t.ts (lt o'.filled o.request.quantity) e
            (Order.min-le_right laws _ _) in
        if_cases (Sound o) (lt (lit 0) qty) _ _
          (λ _.
            if_cases (Sound o) (le o.request.quantity o'.filled) _ _ (λ _. (λ o'' h. cc, (fit, tt)))
              (λ more. (λ o'' h. subst IsOpen (some_inj.0 h) more, (fit, tt))))
          (λ _. untouched-Sound o o open_order)

    at_limit-Sound :
        (c : PaperFillConfig F) (t : Trade F) (limit : F) (k : Coid) (o : RestingOrder F)
        → o.request.limit_price ≡ some limit
        → IsOpen o
        → Sound o (at_limit c t limit k o)
    unfolding at_limit
    at_limit-Sound c t limit k o e h =
        let consumed = min o.queue_ahead t.size in
        let o' = record o { queue_ahead = o.queue_ahead ⊖ consumed } in
        let spill = t.size ⊖ consumed in
        if_cases (Sound o)
          (lt (lit 0) spill && (o.trade_through_seen || not c.require_trade_through))
          (fill_at t limit k o' spill) (untouched o') (λ _. fill_at-Sound t limit k o' spill e h)
          (λ _. untouched-Sound o o' h)

    priced_turn-Sound :
        (c : PaperFillConfig F) (t : Trade F) (limit : F) (k : Coid) (o : RestingOrder F)
        → o.request.limit_price ≡ some limit
        → IsOpen o
        → Sound o (priced_turn c t limit k o)
    unfolding priced_turn
    priced_turn-Sound c t limit k o e h =
        let tiny = ratio 1 (10 ^ 9) in
        let near = at_limit c t limit k o in
        if_cases (Sound o)
          (if is_buy o.request.side then lt t.price (limit ⊖ tiny) else lt (limit ⊕ tiny) t.price)
          (fill_through t limit k o) (if lt (abs (t.price ⊖ limit)) tiny then near else untouched o)
          (λ _. fill_through-Sound t limit k o e)
          (λ _.
            if_cases (Sound o) (lt (abs (t.price ⊖ limit)) tiny) near (untouched o)
              (λ _. at_limit-Sound c t limit k o e h) (λ _. untouched-Sound o o h))

    -- What a trade makes of a resting order that still asks for something: its fills are on its side,
    -- at its own limit and for no more than that, and where it rests on, it still asks for something.
    pub trade_turn-Sound :
        (c : PaperFillConfig F) (t : Trade F) (now : Time) (k : Coid) (o : RestingOrder F)
        → IsOpen o
        → Sound o (trade_turn c t now k o)
    unfolding trade_turn
    trade_turn-Sound c t now k o h = elim (Option-cases o.request.limit_price) [
      | inl e ↦ rw e (ground (arith, untouched-Sound o o h))
      | inr (limit, e) ↦
          rw e (ground (arith, untouched-Sound o o h, priced_turn-Sound c t limit k o e h))
    ]
