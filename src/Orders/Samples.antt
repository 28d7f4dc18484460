-- ===== src/Orders/Samples.antt =====
-- execution/order_manager.py: an order and its fills that tests use.
use liquidity_bot.Prelude.{ℕ, Bool, none, some, [], ◌∷◌}
use liquidity_bot.Float.Fixed.{ℤ, num}
use liquidity_bot.Models.{OrderRequest, Fill, buy, limit, entry}
use liquidity_bot.Orders.{ManagedOrder, OState, partial}

abbrev pub request : OrderRequest ℤ
request = record {
  symbol = 1;
  side = buy;
  quantity = num 100 1;
  order_type = limit;
  limit_price = some (num 10 1);
  client_order_id = 7;
  trace_id = 0;
  intent = entry;
}

abbrev pub fill : ℕ → Fill ℤ
fill shares = record {
  symbol = 1;
  side = buy;
  quantity = num shares 1;
  price = num 10 1;
  ts = 50;
  client_order_id = 7;
  trace_id = 0;
  is_partial = Bool.false;
}

-- the order with half of its shares filled
abbrev pub half : ManagedOrder ℤ
half = record {
  request = request;
  state = partial;
  filled_qty = num 50 1;
  avg_fill_price = num 10 1;
  reserved_risk_usd = num 10 1;
  reserved_notional_usd = num 500 1;
  created_at = some 0;
  activate_at = none;
  expire_at = some 1_000_000;
  revision = 3;
  history = (10, OState.submitting) ∷ (20, OState.acknowledged) ∷ (30, partial) ∷ [];
}
