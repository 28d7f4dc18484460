-- ===== src/Venue/Limits.antt =====
-- execution/venue_paper.py: what a quote or a print may fill of an order.
use liquidity_bot.Prelude.{ℕ, ◌^◌, ◌≡◌, refl, List, [], ◌∷◌, ◌++◌, arith, if◌then◌else◌, if_cases}
use liquidity_bot.Float.{Float, IsOrdered, ◌⊕◌, ◌⊖◌, lit, ratio, le, lt, ◌≼◌, max, min, abs}
use liquidity_bot.Float.Order
use liquidity_bot.Models.{Coid, Quote, Trade, is_buy}
use liquidity_bot.Config.{PaperFillConfig}
use liquidity_bot.Session.{VenueEvent, cancel_ack, fill}
use liquidity_bot.Venue.{
  Working, Turn, is_fok, remaining, add_fill, mk_fill, offered, close_out, aggress, Draw,
  PaperVenue, touch_fill, stressed, at_limit,
}

module _ {F : Type 0} ⦃f : Float F⦄ (laws : IsOrdered F) where
  -- the shares that one event fills
  abbrev pub shares : VenueEvent F → F
  shares (fill x) = x.quantity
  shares _ = lit 0

  unfoldable pub total : List (VenueEvent F) → F
  total [] = lit 0
  total (ev ∷ evs) = shares ev ⊕ total evs

  remaining_nonneg : (w : Working F) → lit 0 ≼ remaining w
  unfolding remaining
  remaining_nonneg w = Order.le-max_left laws _ _

  shares-mk_fill :
      (k : Coid) (w : Working F) (qty px : F) (ts : ℕ) → shares (mk_fill k w qty px ts) ≡ qty
  unfolding mk_fill
  shares-mk_fill k w qty px ts = refl

  close_out-total :
      (k : Coid) (w : Working F) (qty : F) (evs : List (VenueEvent F))
      → total evs ≡ qty
      → total (evs ++ (cancel_ack k ∷ [])) ≡ qty
      → total (close_out k w evs).1 ≡ qty
  unfolding close_out
  close_out-total k w qty evs h i = ground arith

  zero-add : f.add (f.ratio 0 1) (f.ratio 0 1) ≡ f.ratio 0 1
  zero-add = laws.add-zero (lit 0)

  one-total :
      (k : Coid) (w : Working F) (qty px : F) (ts : ℕ)
      → (total (mk_fill k w qty px ts ∷ []) ≡ qty)
        × (total (mk_fill k w qty px ts ∷ cancel_ack k ∷ []) ≡ qty)
  unfolding total
  one-total k w qty px ts =
      rw (shares-mk_fill k w qty px ts, zero-add) (laws.add-zero qty, laws.add-zero qty)

  none-total : (k : Coid) → (total [] ≡ lit 0) × (total (cancel_ack k ∷ []) ≡ lit 0)
  unfolding total
  none-total k = (refl, zero-add)

  abbrev Within : Working F → Turn F → Type 0
  Within w t = total t.1 ≼ remaining w

  at_most : {x a r : F} → x ≡ a → a ≼ r → x ≼ r
  at_most e h = rw e h

  -- A quote never fills more of an order than what remains of it.
  pub aggress-total :
      (c : PaperFillConfig F) (q : Quote F) (k : Coid) (w : Working F)
      → total (aggress c q k w).1 ≼ remaining w
  unfolding aggress
  aggress-total c q k w =
      let rest = remaining w in
      let px = if is_buy w.req.side then q.ask else q.bid in
      let qty = min (offered c w q) rest in
      let nonneg = remaining_nonneg w in
      if_cases (Within w) (is_fok w.tif) _ _
        (λ _.
          if_cases (Within w) (le rest (offered c w q)) _ _
            (λ _. at_most (one-total k w rest px q.ts).0 (laws.le_refl rest))
            (λ _. at_most (none-total k).1 nonneg))
        (λ _.
          if_cases (Within w) (le (max c.partial_fill_min_shares (ratio 1 (10 ^ 9))) qty) _ _
            (λ _.
              at_most
                (close_out-total k (add_fill qty w) qty (mk_fill k w qty px q.ts ∷ [])
                  (one-total k w qty px q.ts).0 (one-total k w qty px q.ts).1)
                (Order.min-le_right laws _ _))
            (λ _.
              at_most (close_out-total k w (lit 0) [] (none-total k).0 (none-total k).1) nonneg))

  touch_fill-total :
      (c : PaperFillConfig F) (t : Trade F) (limit : F) (k : Coid) (w : Working F)
      → Within w (touch_fill c t limit k w)
  unfolding touch_fill
  touch_fill-total c t limit k w =
      let qty = min t.size (remaining w) in
      let one = at_most (one-total k w qty limit t.ts).0 (Order.min-le_right laws _ _) in
      let nothing = at_most (none-total k).0 (remaining_nonneg w) in
      if_cases (Within w) (le c.partial_fill_min_shares qty) _ _
        (λ _.
          if_cases (Within w) (le (remaining (add_fill qty w)) (ratio 1 (10 ^ 9))) _ _ (λ _. one)
            (λ _. one))
        (λ _. nothing)

  module _ (random : ℕ → F) where
    stressed-total :
        (p : F) (n : ℕ) (w : Working F) (t : Turn F)
        → Within w t
        → Within w (stressed random p n w t).1
    unfolding stressed
    stressed-total p n w t h =
        if_cases {A = Draw F} (λ d. Within w d.1) (lt p (random n)) _ _
          (λ _. at_most (none-total 0).0 (remaining_nonneg w)) (λ _. h)

    -- A print at an order's limit or through it never fills more of the order than what remains,
    -- whatever the random generator draws.
    pub at_limit-total :
        (v : PaperVenue F) (t : Trade F) (n : ℕ) (limit : F) (k : Coid) (w : Working F)
        → total (at_limit random v t n limit k w).1.1 ≼ remaining w
    unfolding at_limit
    at_limit-total v t n limit k w =
        let rest = remaining w in
        let nothing = at_most (none-total k).0 (remaining_nonneg w) in
        let whole = at_most (one-total k w rest limit t.ts).0 (laws.le_refl rest) in
        if_cases {A = Draw F} (λ d. Within w d.1)
          (if is_buy w.req.side then lt t.price limit else lt limit t.price) _ _
          (λ _. stressed-total v.fill_probability n w _ whole)
          (λ _.
            if_cases {A = Draw F} (λ d. Within w d.1)
              (lt (abs (t.price ⊖ limit)) (ratio 1 (10 ^ 9))) _ _
              (λ _.
                if_cases {A = Draw F} (λ d. Within w d.1) (lt (lit 0) w.queue_ahead) _ _
                  (λ _. nothing)
                  (λ _.
                    if_cases {A = Draw F} (λ d. Within w d.1) v.cfg.require_trade_through _ _
                      (λ _. nothing)
                      (λ _.
                        stressed-total v.fill_probability n w _
                          (touch_fill-total v.cfg t limit k w))))
              (λ _. nothing))
