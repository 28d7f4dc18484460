-- ===== src/Venue.antt =====
-- execution/venue_paper.py: the simulated venue. The draws of its random generator are the values of
-- `random` at 0, 1 and so on. The reason of a cancel, which nothing reads, is left out. A loop over
-- the working orders changes or removes only the order at hand, so it is a pass over the items.
pub mod Limits
pub mod Events
pub mod Samples
mod Tests
use liquidity_bot.Prelude.{
  ℕ, ◌+◌, ◌*◌, ◌^◌, ◌≡◌, Bool, true, false, not, ◌&&◌, ◌||◌, Option, none, some, List, [], ◌∷◌,
  ◌++◌, leb, ltb, ◌==◌, if◌then◌else◌, Dict, lookup, insert,
}
use liquidity_bot.Float.{Float, ◌⊕◌, ◌⊖◌, ◌⊗◌, lit, ratio, le, lt, max, min, abs}
use liquidity_bot.Models.{Coid, Time, Side, is_buy, OrderType, Quote, Trade, OrderRequest, Fill}
use liquidity_bot.Config.{PaperFillConfig}
use liquidity_bot.Adaptive.{Tif, day, ioc, fok}
use liquidity_bot.Session.{VenueEvent, ack, cancel_ack, fill}

pub record Working (F : Type 0) : Type 0 where
  pub req : OrderRequest F
  pub submitted_at : Time
  pub ack_at : Time
  pub activate_at : Time
  pub limit : Option F
  pub queue_ahead : F
  pub filled : F
  pub acked : Bool
  pub cancel_at : Option Time
  pub tif : Tif
  pub awaiting_first_quote : Bool

pub record PaperVenue (F : Type 0) : Type 0 where
  pub cfg : PaperFillConfig F
  pub ack_latency_ms : ℕ
  pub fill_probability : F
  pub extra_latency_ms : ℕ
  pub drawn : ℕ
  pub working : Dict (Working F)
  pub last_quote : Dict (Quote F)

abbrev pub is_market : OrderType → Bool
is_market OrderType.market = true
is_market OrderType.limit = false

abbrev pub is_ioc : Tif → Bool
is_ioc ioc = true
is_ioc _ = false

abbrev pub is_fok : Tif → Bool
is_fok fok = true
is_fok _ = false

-- the order at hand after an iteration, where it still works, and the events of the iteration
abbrev pub Turn : Type 0 → Type 0
Turn F = Option (Working F) × List (VenueEvent F)

-- the number of draws made so far, and the turn
abbrev pub Draw : Type 0 → Type 0
Draw F = ℕ × Turn F

module _ {F : Type 0} ⦃f : Float F⦄ where
  unfoldable pub remaining : Working F → F
  unfolding max
  remaining w = max (lit 0) (w.req.quantity ⊖ w.filled)

  abbrev pub is_priced : Side → F → Quote F → Bool
  is_priced s limit q = if is_buy s then le q.ask limit else le limit q.bid

  unfoldable pub is_marketable : OrderRequest F → Option (Quote F) → Bool
  is_marketable r none = is_market r.order_type
  is_marketable r (some q) =
      if is_market r.order_type
      then true
      else elim r.limit_price [ none ↦ false | some limit ↦ is_priced r.side limit q ]

  abbrev pub touch_size : Side → Quote F → F
  touch_size s q = if is_buy s then q.bid_size else q.ask_size

  unfoldable pub submit : Time → OrderRequest F → Tif → PaperVenue F → PaperVenue F
  submit now r tif v =
      let q = lookup r.symbol v.last_quote in
      let first = is_market r.order_type || is_marketable r q || is_ioc tif || is_fok tif in
      let ahead : F = elim q [
        | none ↦ lit 0
        | some p ↦ touch_size r.side p ⊗ v.cfg.queue_position_factor
      ] in
      let w : Working F = record {
        req = r;
        submitted_at = now;
        ack_at = now + v.ack_latency_ms * 1000;
        activate_at = now + (v.cfg.latency_ms + v.extra_latency_ms) * 1000;
        limit = r.limit_price;
        queue_ahead = if first then lit 0 else ahead;
        filled = lit 0;
        acked = false;
        cancel_at = none;
        tif = tif;
        awaiting_first_quote = first;
      } in
      record v { working = insert r.client_order_id w v.working }

  unfoldable pub cancel : Time → Coid → PaperVenue F → PaperVenue F
  cancel now k v = elim (lookup k v.working) [
    | none ↦ v
    | some w ↦ elim w.cancel_at [
      | some _ ↦ v
      | none ↦ record v {
        working =
            insert k (record w { cancel_at = some (now + v.cfg.cancel_latency_ms * 1000) })
              v.working;
      }
    ]
  ]

  -- `w.filled += qty`
  unfoldable pub add_fill : F → Working F → Working F
  add_fill qty w = record w { filled = w.filled ⊕ qty }

  -- the event of `_mk_fill`
  unfoldable pub mk_fill : Coid → Working F → F → F → Time → VenueEvent F
  mk_fill k w qty px ts = fill (record {
    symbol = w.req.symbol;
    side = w.req.side;
    quantity = qty;
    price = px;
    ts = ts;
    client_order_id = k;
    trace_id = w.req.trace_id;
    is_partial = lt (ratio 1 (10 ^ 9)) (remaining (add_fill qty w));
  })

  -- what a quote offers to an order at its price
  unfoldable pub offered : PaperFillConfig F → Working F → Quote F → F
  offered c w q =
      let s = w.req.side in
      let px = if is_buy s then q.ask else q.bid in
      let avail = if is_buy s then q.ask_size else q.bid_size in
      let beyond : Bool = elim w.limit [
        | none ↦ false
        | some limit ↦ if is_buy s then lt limit px else lt px limit
      ] in
      if beyond then lit 0 else avail ⊗ c.marketable_max_take_fraction

  -- the end of `_aggress`: the rest of an IOC is cancelled, a filled order is removed
  unfoldable pub close_out : Coid → Working F → List (VenueEvent F) → Turn F
  close_out k w out =
      if is_ioc w.tif
      then if lt (ratio 1 (10 ^ 9)) (remaining w)
        then (none, out ++ (cancel_ack k ∷ []))
        else (none, out)
      else if le (remaining w) (ratio 1 (10 ^ 9))
      then (none, out)
      else (some w, out)

  unfoldable pub aggress : PaperFillConfig F → Quote F → Coid → Working F → Turn F
  aggress c q k w =
      let px = if is_buy w.req.side then q.ask else q.bid in
      let take = offered c w q in
      let rest = remaining w in
      let qty = min take rest in
      if is_fok w.tif
      then if le rest take
        then (some (add_fill rest w), mk_fill k w rest px q.ts ∷ [])
        else (none, cancel_ack k ∷ [])
      else if le (max c.partial_fill_min_shares (ratio 1 (10 ^ 9))) qty
      then close_out k (add_fill qty w) (mk_fill k w qty px q.ts ∷ [])
      else close_out k w []

  unfoldable pub quote_turn : PaperFillConfig F → Time → Quote F → Coid → Working F → Turn F
  quote_turn c now q k w =
      if not (w.req.symbol == q.symbol) || not w.awaiting_first_quote
      then (some w, [])
      else if ltb now w.activate_at || ltb q.ts w.activate_at
      then (some w, [])
      else aggress c q k w

  -- a working order as the item of its key, where it still works
  abbrev pub kept : Coid → Option (Working F) → Dict (Working F) → Dict (Working F)
  kept k none rest = rest
  kept k (some w) rest = (k, w) ∷ rest

  unfoldable pub pass :
      (Coid → Working F → Turn F) → Dict (Working F) → Dict (Working F) × List (VenueEvent F)
  pass turn [] = ([], [])
  pass turn ((k, w) ∷ ws) =
      let (w', out) = turn k w in let (ws', outs) = pass turn ws in (kept k w' ws', out ++ outs)

  unfoldable pub on_quote : Time → Quote F → PaperVenue F → PaperVenue F × List (VenueEvent F)
  on_quote now q v =
      let (working, out) = pass (quote_turn v.cfg now q) v.working in
      (record v { working = working; last_quote = insert q.symbol q v.last_quote }, out)

  -- `w.queue_ahead = max(0.0, w.queue_ahead - t.size)`
  unfoldable pub advance_queue : F → Working F → Working F
  unfolding max
  advance_queue size w = record w { queue_ahead = max (lit 0) (w.queue_ahead ⊖ size) }

  -- a print at the order's price that reaches it
  unfoldable pub touch_fill : PaperFillConfig F → Trade F → F → Coid → Working F → Turn F
  touch_fill c t limit k w =
      let qty = min t.size (remaining w) in
      let w' = add_fill qty w in
      if le c.partial_fill_min_shares qty
      then if le (remaining w') (ratio 1 (10 ^ 9))
        then (none, mk_fill k w qty limit t.ts ∷ [])
        else (some w', mk_fill k w qty limit t.ts ∷ [])
      else (some w, [])

  module _ (random : ℕ → F) where
    -- `self._rng.random() > self.fill_probability`, where it skips the order
    unfoldable pub stressed : F → ℕ → Working F → Turn F → Draw F
    stressed probability n w t =
        if lt probability (random n) then (n + 1, (some w, [])) else (n + 1, t)

    unfoldable pub at_limit : PaperVenue F → Trade F → ℕ → F → Coid → Working F → Draw F
    at_limit v t n limit k w =
        let s = w.req.side in
        let through = if is_buy s then lt t.price limit else lt limit t.price in
        if through
        then stressed v.fill_probability n w (none, mk_fill k w (remaining w) limit t.ts ∷ [])
        else if lt (abs (t.price ⊖ limit)) (ratio 1 (10 ^ 9))
        then if lt (lit 0) w.queue_ahead
          then (n, (some (advance_queue t.size w), []))
          else if v.cfg.require_trade_through
          then (n, (some w, []))
          else stressed v.fill_probability n w (touch_fill v.cfg t limit k w)
        else (n, (some w, []))

    unfoldable pub trade_turn : PaperVenue F → Time → Trade F → ℕ → Coid → Working F → Draw F
    trade_turn v now t n k w =
        if not (w.req.symbol == t.symbol) || w.awaiting_first_quote || ltb now w.activate_at
        then (n, (some w, []))
        else elim w.limit [ none ↦ (n, (some w, [])) | some limit ↦ at_limit v t n limit k w ]

    unfoldable pub trade_pass :
        PaperVenue F
        → Time
        → Trade F
        → ℕ
        → Dict (Working F)
        → ℕ × Dict (Working F) × List (VenueEvent F)
    trade_pass v now t n [] = (n, [], [])
    trade_pass v now t n ((k, w) ∷ ws) =
        let (n', (w', out)) = trade_turn v now t n k w in
        let (last, ws', outs) = trade_pass v now t n' ws in (last, kept k w' ws', out ++ outs)

    unfoldable pub on_trade : Time → Trade F → PaperVenue F → PaperVenue F × List (VenueEvent F)
    on_trade now t v =
        let (drawn, working, out) = trade_pass v now t v.drawn v.working in
        (record v { drawn = drawn; working = working }, out)

  -- an order in `poll`: its ack, and then its cancel
  unfoldable pub poll_turn : Time → Coid → Working F → Turn F
  poll_turn now k w =
      let acks = not w.acked && leb w.ack_at now in
      let out = if acks then ack k ∷ [] else [] in
      let w' = record w { acked = w.acked || acks } in
      let due : Bool = elim w.cancel_at [ none ↦ false | some t ↦ leb t now ] in
      if due then (none, out ++ (cancel_ack k ∷ [])) else (some w', out)

  unfoldable pub poll : Time → PaperVenue F → PaperVenue F × List (VenueEvent F)
  poll now v =
      let (working, out) = pass (poll_turn now) v.working in (record v { working = working }, out)
