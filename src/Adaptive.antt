-- ===== src/Adaptive.antt =====
-- execution/adaptive.py: how an entry is worked. Python's `**` on floats is the argument `pow`.
pub mod Ladder
mod Tests
use liquidity_bot.Prelude.{
  ℕ, ◌^◌, ◌≡◌, refl, Bool, true, false, not, ◌&&◌, ◌||◌, Option, none, some, if◌then◌else◌,
}
use liquidity_bot.Float.{Float, ◌⊕◌, ◌⊖◌, ◌⊗◌, ◌⊘◌, lit, ratio, le, lt, neg, max, min}
use liquidity_bot.Models.{Side, buy, sell, is_buy, Quote, mid}
use liquidity_bot.Models.Features.{FeatureVector}

pub data Style : Type 0 where
  passive join cross : Style

pub data Tif : Type 0 where
  day ioc fok : Tif

pub record ExecPlan (F : Type 0) : Type 0 where
  pub style : Style
  pub limit_price : Option F
  pub tif : Tif
  pub ttl_ms : ℕ
  pub expected_fill_prob : F
  pub max_chase_bps : F

abbrev pub is_passive : Style → Bool
is_passive passive = true
is_passive _ = false

abbrev pub is_cross : Style → Bool
is_cross cross = true
is_cross _ = false

-- the style after a retry
abbrev pub next_style : Style → Style
next_style passive = join
next_style _ = cross

module _ {F : Type 0} ⦃f : Float F⦄ where
  unfoldable pub estimate_queue_fill_prob : (F → F → F) → F → F → F → F → F
  estimate_queue_fill_prob pow queue rate ttl_s through =
      let t_consume = queue ⊘ max rate (ratio 1 (10 ^ 6)) in
      let p_consume =
        max (lit 0) (min (lit 1) ((ttl_s ⊖ t_consume) ⊘ max ttl_s (ratio 1 (10 ^ 6)))) in
      let p_through = lit 1 ⊖ pow (lit 1 ⊖ through) (max ttl_s (lit 0)) in
      if le queue (lit 0)
      then lit 1
      else max (lit 0) (min (lit 1) (p_consume ⊗ ratio 6 10 ⊕ p_through ⊗ ratio 8 10))

  -- the price of an aggressive order, and of one that improves the touch by a tick
  abbrev pub far_touch : Side → Quote F → F
  far_touch s q = if is_buy s then q.ask else q.bid

  abbrev pub near_touch : Side → Quote F → F
  near_touch s q = if is_buy s then q.bid else q.ask

  abbrev pub improved : Side → F → Quote F → F
  improved s tick q = if is_buy s then q.bid ⊕ tick else q.ask ⊖ tick

  unfoldable pub plan_entry :
      (F → F → F) → FeatureVector F → Quote F → Side → F → F → F → ℕ → ExecPlan F
  plan_entry pow v q s urgency rate tick base_ttl_ms =
      let queue = if is_buy s then q.bid_size else q.ask_size in
      let p_passive =
        estimate_queue_fill_prob pow queue rate (ratio base_ttl_ms 1000) (ratio 2 100) in
      let wide = le (ratio 75 100) v.spread_pctile in
      let depleting_against =
        if is_buy s
        then lt v.queue_depletion (neg (ratio 5 10))
        else lt (ratio 5 10) v.queue_depletion in
      if le (ratio 85 100) urgency || depleting_against && le (ratio 5 10) urgency
      then record {
        style = cross;
        limit_price = some (far_touch s q);
        tif = ioc;
        ttl_ms = 1500;
        expected_fill_prob = ratio 9 10;
        max_chase_bps = v.spread_bps ⊕ lit 3;
      }
      else if wide && le (lit 2 ⊗ tick ⊘ max (mid q) (ratio 1 (10 ^ 9)) ⊗ lit 10_000) v.spread_bps
      then record {
        style = join;
        limit_price = some (improved s tick q);
        tif = day;
        ttl_ms = base_ttl_ms;
        expected_fill_prob = min (ratio 95 100) (p_passive ⊕ ratio 25 100);
        max_chase_bps = v.spread_bps;
      }
      else record {
        style = passive;
        limit_price = some (near_touch s q);
        tif = day;
        ttl_ms = base_ttl_ms;
        expected_fill_prob = p_passive;
        max_chase_bps = v.spread_bps;
      }

  abbrev pub retry_price : Style → Side → F → Quote F → F
  retry_price join s tick q = improved s tick q
  retry_price _ s tick q = far_touch s q

  -- the slippage of a price against the decision price, in the direction of the trade
  unfoldable pub slip_bps : Side → F → F → F
  slip_bps s px decision_price =
      let slip = (px ⊖ decision_price) ⊘ max decision_price (ratio 1 (10 ^ 9)) ⊗ lit 10_000 in
      if is_buy s then slip else neg slip

  unfoldable pub retry : Style → Side → F → Quote F → F → ExecPlan F
  retry style s tick q chase = record {
    style = style;
    limit_price = some (retry_price style s tick q);
    tif = if is_cross style then ioc else day;
    ttl_ms = if is_cross style then 1500 else 2500;
    expected_fill_prob = if is_cross style then ratio 9 10 else ratio 6 10;
    max_chase_bps = chase;
  }

  unfoldable pub next_retry : ExecPlan F → Quote F → Side → F → F → Option (ExecPlan F)
  next_retry prev q s decision_price tick =
      let style = next_style prev.style in
      if is_cross prev.style
      then none
      else if lt prev.max_chase_bps (slip_bps s (retry_price style s tick q) decision_price)
      then none
      else some (retry style s tick q prev.max_chase_bps)
