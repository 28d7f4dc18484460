-- ===== src/PaperBroker.antt =====
-- execution/paper.py: the older paper broker. A loop over the resting orders changes or removes only
-- the order at hand, so it is a pass over the items.
pub mod Limits
mod Tests
use liquidity_bot.Prelude.{
  ℕ, ◌+◌, ◌*◌, ◌^◌, ◌≡◌, Bool, true, false, not, ◌&&◌, ◌||◌, Option, none, some, List, [], ◌∷◌,
  ◌++◌, leb, ltb, ◌==◌, if◌then◌else◌, Dict, lookup, insert, has_key, get_or, keys,
}
use liquidity_bot.Float.{Float, ◌⊕◌, ◌⊖◌, ◌⊗◌, lit, ratio, le, lt, max, min, abs, trunc}
use liquidity_bot.Models.{
  Coid, Time, Side, is_buy, OrderType, OrderStatus, Quote, Trade, OrderRequest, Fill,
}
use liquidity_bot.Models.OrderStatus.{submitted, partial, filled, cancelled, rejected}
use liquidity_bot.Config.{PaperFillConfig}

pub record RestingOrder (F : Type 0) : Type 0 where
  pub request : OrderRequest F
  pub active_at : Time
  pub queue_ahead : F
  pub filled : F
  pub trade_through_seen : Bool
  pub cancel_at : Option Time

pub record PaperBroker (F : Type 0) : Type 0 where
  pub cfg : PaperFillConfig F
  pub fills : List (Fill F)
  pub orders : Dict (RestingOrder F)
  pub statuses : Dict OrderStatus

-- what an iteration over a resting order leaves: the order if it still rests, its new status if it
-- has one, and its fills
pub record Turn (F : Type 0) : Type 0 where
  pub order : Option (RestingOrder F)
  pub status : Option OrderStatus
  pub out : List (Fill F)

abbrev pub is_market : OrderType → Bool
is_market OrderType.market = true
is_market OrderType.limit = false

abbrev pub is_due : Option Time → Time → Bool
is_due none now = false
is_due (some at) now = leb at now

-- `statuses[k] = s`, where a turn sets one
abbrev pub stated : Coid → Option OrderStatus → Dict OrderStatus → Dict OrderStatus
stated k none d = d
stated k (some s) d = insert k s d

module _ {F : Type 0} ⦃f : Float F⦄ where
  -- a market order, or a limit at or beyond the opposite touch
  unfoldable pub is_marketable : OrderRequest F → Quote F → Bool
  is_marketable r q = is_market r.order_type || (elim r.limit_price [
    | none ↦ false
    | some limit ↦ if is_buy r.side then le q.ask limit else le limit q.bid
  ])

  abbrev pub with_status : Coid → OrderStatus → PaperBroker F → OrderStatus × PaperBroker F
  with_status k s b = (s, record b { statuses = insert k s b.statuses })

  -- the shares that a marketable order takes at once
  unfoldable pub take : PaperFillConfig F → OrderRequest F → F → F
  take c r touch_size =
      min
        (min r.quantity
          (max c.partial_fill_min_shares (touch_size ⊗ c.marketable_max_take_fraction)))
        r.quantity

  -- `submit` of a marketable order
  unfoldable pub execute :
      OrderRequest F → Quote F → Time → PaperBroker F → OrderStatus × PaperBroker F
  execute r q now b =
      let size = take b.cfg r (if is_buy r.side then q.ask_size else q.bid_size) in
      let fill : Fill F = record {
        symbol = r.symbol;
        side = r.side;
        quantity = trunc size;
        price = if is_buy r.side then q.ask else q.bid;
        ts = now + b.cfg.latency_ms * 1000;
        client_order_id = r.client_order_id;
        trace_id = r.trace_id;
        is_partial = lt size r.quantity;
      } in
      if le fill.quantity (lit 0)
      then with_status r.client_order_id cancelled b
      else with_status r.client_order_id (if fill.is_partial then partial else filled)
          (record b { fills = b.fills ++ (fill ∷ []) })

  -- `submit` of a passive order, which joins the back of the queue
  unfoldable pub rest :
      OrderRequest F → Quote F → Time → PaperBroker F → OrderStatus × PaperBroker F
  rest r q now b =
      let o : RestingOrder F = record {
        request = r;
        active_at = now + b.cfg.latency_ms * 1000;
        queue_ahead =
            (if is_buy r.side then q.bid_size else q.ask_size) ⊗ b.cfg.queue_position_factor;
        filled = lit 0;
        trade_through_seen = false;
        cancel_at = none;
      } in
      with_status r.client_order_id submitted
        (record b { orders = insert r.client_order_id o b.orders })

  unfoldable pub submit :
      OrderRequest F → Quote F → Time → PaperBroker F → OrderStatus × PaperBroker F
  submit r q now b =
      let k = r.client_order_id in
      if le r.quantity (lit 0)
      then with_status k rejected b
      else if has_key k b.orders || has_key k b.statuses
      then (get_or k submitted b.statuses, b)
      else if is_marketable r q
      then execute r q now b
      else rest r q now b

  unfoldable pub cancel : Coid → Time → PaperBroker F → PaperBroker F
  cancel k now b = elim (lookup k b.orders) [
    | none ↦ b
    | some o ↦ record b {
      orders =
          insert k (record o { cancel_at = some (now + b.cfg.cancel_latency_ms * 1000) }) b.orders;
    }
  ]

  abbrev pub untouched : RestingOrder F → Turn F
  untouched o = record { order = some o; status = none; out = [] }

  abbrev pub fill_of : Coid → RestingOrder F → F → F → Time → Bool → Fill F
  fill_of k o qty limit ts is_partial = record {
    symbol = o.request.symbol;
    side = o.request.side;
    quantity = qty;
    price = limit;
    ts = ts;
    client_order_id = k;
    trace_id = o.request.trace_id;
    is_partial = is_partial;
  }

  -- the price has traded beyond the limit
  unfoldable pub fill_through : Trade F → F → Coid → RestingOrder F → Turn F
  fill_through t limit k o =
      let qty = o.request.quantity ⊖ o.filled in
      record {
        order = none;
        status = some filled;
        out = if lt (lit 0) qty then fill_of k o qty limit t.ts false ∷ [] else [];
      }

  -- a print at the limit reaches the order with `spill` shares
  unfoldable pub fill_at : Trade F → F → Coid → RestingOrder F → F → Turn F
  fill_at t limit k o spill =
      let qty = min spill (o.request.quantity ⊖ o.filled) in
      let o' = record o { filled = o.filled ⊕ qty } in
      let fill = fill_of k o qty limit t.ts (lt o'.filled o.request.quantity) in
      if lt (lit 0) qty
      then if le o.request.quantity o'.filled
        then record { order = none; status = some filled; out = fill ∷ [] }
        else record { order = some o'; status = some partial; out = fill ∷ [] }
      else untouched o

  unfoldable pub at_limit : PaperFillConfig F → Trade F → F → Coid → RestingOrder F → Turn F
  at_limit c t limit k o =
      let consumed = min o.queue_ahead t.size in
      let o' = record o { queue_ahead = o.queue_ahead ⊖ consumed } in
      let spill = t.size ⊖ consumed in
      if lt (lit 0) spill && (o.trade_through_seen || not c.require_trade_through)
      then fill_at t limit k o' spill
      else untouched o'

  unfoldable pub priced_turn : PaperFillConfig F → Trade F → F → Coid → RestingOrder F → Turn F
  priced_turn c t limit k o =
      let tiny = ratio 1 (10 ^ 9) in
      if (if is_buy o.request.side then lt t.price (limit ⊖ tiny) else lt (limit ⊕ tiny) t.price)
      then fill_through t limit k o
      else if lt (abs (t.price ⊖ limit)) tiny
      then at_limit c t limit k o
      else untouched o

  unfoldable pub trade_turn : PaperFillConfig F → Trade F → Time → Coid → RestingOrder F → Turn F
  trade_turn c t now k o =
      if not (o.request.symbol == t.symbol) || ltb now o.active_at
      then untouched o
      else if is_due o.cancel_at now
      then record {
        order = none;
        status = some (if lt (lit 0) o.filled then partial else cancelled);
        out = [];
      }
      else elim o.request.limit_price [
        | none ↦ untouched o
        | some limit ↦ priced_turn c t limit k o
      ]

  abbrev pub kept : Coid → Option (RestingOrder F) → Dict (RestingOrder F) → Dict (RestingOrder F)
  kept k none d = d
  kept k (some o) d = (k, o) ∷ d

  -- the loop over the items: the orders left, the statuses and the fills
  unfoldable pub pass :
      (Coid → RestingOrder F → Turn F)
      → Dict (RestingOrder F)
      → Dict OrderStatus
      → Dict (RestingOrder F) × Dict OrderStatus × List (Fill F)
  pass turn [] statuses = ([], statuses, [])
  pass turn ((k, o) ∷ d) statuses =
      let t = turn k o in
      let (d', statuses', out) = pass turn d (stated k t.status statuses) in
      (kept k t.order d', statuses', t.out ++ out)

  unfoldable pub on_trade : Trade F → Time → PaperBroker F → PaperBroker F × List (Fill F)
  on_trade t now b =
      let (orders, statuses, out) = pass (trade_turn b.cfg t now) b.orders b.statuses in
      (record b { orders = orders; statuses = statuses; fills = b.fills ++ out }, out)

  unfoldable pub open_order_ids : PaperBroker F → List Coid
  open_order_ids b = keys b.orders
