-- ===== src/Venue/Events.antt =====
-- execution/venue_paper.py: no event of the venue has a negative quantity, and no method changes the
-- venue's settings.
use liquidity_bot.Prelude.{
  ℕ, ◌^◌, not, ◌||◌, Option, none, some, List, [], ◌∷◌, arith, if◌then◌else◌, if_cases, All,
  All-append, Dict, ◌==◌, ltb,
}
use liquidity_bot.Float.{Float, IsOrdered, ◌⊖◌, lit, ratio, le, lt, ◌≼◌, max, min, abs}
use liquidity_bot.Float.Order
use liquidity_bot.Models.{Coid, Time, Quote, Trade, is_buy}
use liquidity_bot.Config.{PaperFillConfig}
use liquidity_bot.Session.{VenueEvent, cancel_ack}
use liquidity_bot.Session.Evolution.{IsAdmissible}
use liquidity_bot.Venue.{
  Working, Turn, is_fok, is_ioc, remaining, add_fill, mk_fill, offered, close_out, aggress,
  quote_turn, pass, Draw, PaperVenue, touch_fill, stressed, at_limit, trade_turn, trade_pass,
  poll_turn, on_quote, on_trade, poll,
}

module _ {F : Type 0} ⦃f : Float F⦄ (laws : IsOrdered F) where
  abbrev AllAdmissible : List (VenueEvent F) → Type 0
  AllAdmissible = All IsAdmissible

  mk_fill-IsAdmissible :
      (k : Coid) (w : Working F) (qty px : F) (ts : ℕ)
      → lit 0 ≼ qty
      → IsAdmissible (mk_fill k w qty px ts)
  unfolding mk_fill
  mk_fill-IsAdmissible k w qty px ts h = h

  remaining_nonneg : (w : Working F) → lit 0 ≼ remaining w
  unfolding remaining
  remaining_nonneg w = Order.le-max_left laws _ _

  close_out-IsAdmissible :
      (k : Coid) (w : Working F) (evs : List (VenueEvent F))
      → AllAdmissible evs
      → AllAdmissible (close_out k w evs).1
  unfolding close_out
  close_out-IsAdmissible k w evs h =
      let more = All-append IsAdmissible evs (cancel_ack k ∷ []) h (tt, tt) in
      if_cases {A = Turn F} (λ t. AllAdmissible t.1) (is_ioc w.tif) _ _
        (λ _.
          if_cases {A = Turn F} (λ t. AllAdmissible t.1) (lt (ratio 1 (10 ^ 9)) (remaining w)) _ _
            (λ _. more) (λ _. h))
        (λ _.
          if_cases {A = Turn F} (λ t. AllAdmissible t.1) (le (remaining w) (ratio 1 (10 ^ 9))) _ _
            (λ _. h) (λ _. h))

  module _ (c : PaperFillConfig F) (least : lit 0 ≼ c.partial_fill_min_shares) where
    aggress-IsAdmissible :
        (q : Quote F) (k : Coid) (w : Working F) → AllAdmissible (aggress c q k w).1
    unfolding aggress
    aggress-IsAdmissible q k w =
        let rest = remaining w in
        let px = if is_buy w.req.side then q.ask else q.bid in
        let qty = min (offered c w q) rest in
        if_cases {A = Turn F} (λ t. AllAdmissible t.1) (is_fok w.tif) _ _
          (λ _.
            if_cases {A = Turn F} (λ t. AllAdmissible t.1) (le rest (offered c w q)) _ _
              (λ _. (mk_fill-IsAdmissible k w rest px q.ts (remaining_nonneg w), tt))
              (λ _. (tt, tt)))
          (λ _.
            if_cases {A = Turn F} (λ t. AllAdmissible t.1)
              (le (max c.partial_fill_min_shares (ratio 1 (10 ^ 9))) qty) _ _
              (λ enough. close_out-IsAdmissible k (add_fill qty w) (mk_fill k w qty px q.ts ∷ []) (
                mk_fill-IsAdmissible k w qty px q.ts (
                    laws.le_trans _ _ _ least
                      (laws.le_trans _ _ _ (Order.le-max_left laws _ _) enough)),
                tt,
              ))
              (λ _. close_out-IsAdmissible k w [] tt))

    quote_turn-IsAdmissible :
        (now : Time) (q : Quote F) (k : Coid) (w : Working F)
        → AllAdmissible (quote_turn c now q k w).1
    unfolding quote_turn
    quote_turn-IsAdmissible now q k w =
        if_cases {A = Turn F} (λ t. AllAdmissible t.1)
          (not (w.req.symbol == q.symbol) || not w.awaiting_first_quote) _ _ (λ _. tt)
          (λ _.
            if_cases {A = Turn F} (λ t. AllAdmissible t.1)
              (ltb now w.activate_at || ltb q.ts w.activate_at) _ _ (λ _. tt)
              (λ _. aggress-IsAdmissible q k w))

    touch_fill-IsAdmissible :
        (t : Trade F) (limit : F) (k : Coid) (w : Working F)
        → AllAdmissible (touch_fill c t limit k w).1
    unfolding touch_fill
    touch_fill-IsAdmissible t limit k w =
        let qty = min t.size (remaining w) in
        if_cases {A = Turn F} (λ t. AllAdmissible t.1) (le c.partial_fill_min_shares qty) _ _
          (λ enough.
            let one = mk_fill-IsAdmissible k w qty limit t.ts (laws.le_trans _ _ _ least enough) in
            if_cases {A = Turn F} (λ t. AllAdmissible t.1)
              (le (remaining (add_fill qty w)) (ratio 1 (10 ^ 9))) _ _ (λ _. (one, tt))
              (λ _. (one, tt)))
          (λ _. tt)

  pass-IsAdmissible :
      (turn : Coid → Working F → Turn F) (ws : Dict (Working F))
      → ((k : Coid) (w : Working F) → AllAdmissible (turn k w).1)
      → AllAdmissible (pass turn ws).1
  unfolding pass
  pass-IsAdmissible turn [] h = tt
  pass-IsAdmissible turn ((k, w) ∷ ws) h =
      All-append IsAdmissible (turn k w).1 (pass turn ws).1 (h k w) (pass-IsAdmissible turn ws h)

  poll_turn-IsAdmissible :
      (now : Time) (k : Coid) (w : Working F) → AllAdmissible (poll_turn now k w).1
  unfolding poll_turn
  poll_turn-IsAdmissible now k w = ground arith

  pub on_quote-IsAdmissible :
      (now : Time) (q : Quote F) (v : PaperVenue F)
      → lit 0 ≼ v.cfg.partial_fill_min_shares
      → All IsAdmissible (on_quote now q v).1
  unfolding on_quote
  on_quote-IsAdmissible now q v h =
      pass-IsAdmissible (quote_turn v.cfg now q) v.working (quote_turn-IsAdmissible v.cfg h now q)

  pub poll-IsAdmissible : (now : Time) (v : PaperVenue F) → All IsAdmissible (poll now v).1
  unfolding poll
  poll-IsAdmissible now v = pass-IsAdmissible (poll_turn now) v.working (poll_turn-IsAdmissible now)

  module _ (random : ℕ → F) where
    stressed-IsAdmissible :
        (p : F) (n : ℕ) (w : Working F) (t : Turn F)
        → AllAdmissible t.1
        → AllAdmissible (stressed random p n w t).1.1
    unfolding stressed
    stressed-IsAdmissible p n w t h =
        if_cases {A = Draw F} (λ d. AllAdmissible d.1.1) (lt p (random n)) _ _ (λ _. tt) (λ _. h)

    module _ (v : PaperVenue F) (least : lit 0 ≼ v.cfg.partial_fill_min_shares) (now : Time)
        (t : Trade F) where
      at_limit-IsAdmissible :
          (n : ℕ) (limit : F) (k : Coid) (w : Working F)
          → AllAdmissible (at_limit random v t n limit k w).1.1
      unfolding at_limit
      at_limit-IsAdmissible n limit k w =
          let whole = mk_fill-IsAdmissible k w (remaining w) limit t.ts (remaining_nonneg w) in
          if_cases {A = Draw F} (λ d. AllAdmissible d.1.1)
            (if is_buy w.req.side then lt t.price limit else lt limit t.price) _ _
            (λ _. stressed-IsAdmissible v.fill_probability n w _ (whole, tt))
            (λ _.
              if_cases {A = Draw F} (λ d. AllAdmissible d.1.1)
                (lt (abs (t.price ⊖ limit)) (ratio 1 (10 ^ 9))) _ _
                (λ _.
                  if_cases {A = Draw F} (λ d. AllAdmissible d.1.1) (lt (lit 0) w.queue_ahead) _ _
                    (λ _. tt)
                    (λ _.
                      if_cases {A = Draw F} (λ d. AllAdmissible d.1.1) v.cfg.require_trade_through _
                        _ (λ _. tt)
                        (λ _.
                          stressed-IsAdmissible v.fill_probability n w _
                            (touch_fill-IsAdmissible v.cfg least t limit k w))))
                (λ _. tt))

      trade_turn-IsAdmissible :
          (n : ℕ) (k : Coid) (w : Working F) → AllAdmissible (trade_turn random v now t n k w).1.1
      unfolding trade_turn
      trade_turn-IsAdmissible n k w =
          if_cases {A = Draw F} (λ d. AllAdmissible d.1.1)
            (not (w.req.symbol == t.symbol) || w.awaiting_first_quote || ltb now w.activate_at) _ _
            (λ _. tt) (λ _. priced w.limit)
        where
          priced :
              (limit : Option F)
              → AllAdmissible
                  (elim limit as (λ _. Draw F) [
                    | none ↦ (n, (some w, []))
                    | some limit ↦ at_limit random v t n limit k w
                  ]).1.1
          priced none = tt
          priced (some limit) = at_limit-IsAdmissible n limit k w

      trade_pass-IsAdmissible :
          (n : ℕ) (ws : Dict (Working F)) → AllAdmissible (trade_pass random v now t n ws).2
      unfolding trade_pass
      trade_pass-IsAdmissible n [] = tt
      trade_pass-IsAdmissible n ((k, w) ∷ ws) =
          let turn = trade_turn random v now t n k w in
          All-append IsAdmissible turn.1.1 (trade_pass random v now t turn.0 ws).2
            (trade_turn-IsAdmissible n k w) (trade_pass-IsAdmissible turn.0 ws)

      pub on_trade-IsAdmissible : All IsAdmissible (on_trade random now t v).1
      unfolding on_trade
      on_trade-IsAdmissible = trade_pass-IsAdmissible v.drawn v.working
