-- ===== src/Venue/Samples.antt =====
-- execution/venue_paper.py: a venue with a resting order, which tests use.
use liquidity_bot.Prelude.{true, none, some, false, [], ◌∷◌}
use liquidity_bot.Float.Fixed.{ℤ, num}
use liquidity_bot.Orders.Samples.{request}
use liquidity_bot.Config.{PaperFillConfig}
use liquidity_bot.Adaptive.{day}
use liquidity_bot.Venue.{Working, PaperVenue}

abbrev pub config : PaperFillConfig ℤ
config = record {
  latency_ms = 150;
  cancel_latency_ms = 150;
  queue_position_factor = num 1 1;
  require_trade_through = true;
  marketable_max_take_fraction = num 1 4;
  adverse_selection_bps = num 1 1;
  partial_fill_min_shares = num 1 1;
}

abbrev pub order : Working ℤ
order = record {
  req = request;
  submitted_at = 0;
  ack_at = 120_000;
  activate_at = 150_000;
  limit = some (num 10 1);
  queue_ahead = num 0 1;
  filled = num 0 1;
  acked = true;
  cancel_at = none;
  tif = day;
  awaiting_first_quote = true;
}

-- the order once it rests in the book, and a print through its limit
abbrev pub resting : Working ℤ
resting = record order { awaiting_first_quote = false }

abbrev pub venue : PaperVenue ℤ
venue = record {
  cfg = config;
  ack_latency_ms = 120;
  fill_probability = num 1 2;
  extra_latency_ms = 0;
  drawn = 0;
  working = (7, resting) ∷ [];
  last_quote = [];
}
