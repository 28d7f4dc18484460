-- ===== src/Models.antt =====
-- core/models.py: the domain records. A `datetime` is a number of microseconds, the resolution of
-- Python's; a symbol, a client order id or a trace id is only compared, so it is a number.
pub mod Features
pub mod Samples
use liquidity_bot.Prelude.{ℕ, Bool, Option, List, [], ◌∷◌, ◌≡◌, refl, if◌then◌else◌, arith}
use liquidity_bot.Float.{Float, ◌⊕◌, ◌⊖◌, ◌⊗◌, ◌⊘◌, lit, le, lt, neg, max, min}

abbrev pub Symbol : Type 0
Symbol = ℕ

abbrev pub Coid : Type 0
Coid = ℕ

abbrev pub Time : Type 0
Time = ℕ

pub data Side : Type 0 where
  buy sell : Side

pub data Session : Type 0 where
  pre rth post closed : Session

pub data GovernorAction : Type 0 where
  reversal continuation no_trade : GovernorAction

pub data OrderStatus : Type 0 where
  pending submitted partial filled cancelled rejected unknown : OrderStatus

pub data OrderType : Type 0 where
  limit market : OrderType

pub data Intent : Type 0 where
  entry exit flatten : Intent

unfoldable pub opposite : Side → Side
opposite buy = sell
opposite sell = buy

abbrev pub is_buy : Side → Bool
is_buy buy = Bool.true
is_buy sell = Bool.false

abbrev pub is_entry_intent : Intent → Bool
is_entry_intent entry = Bool.true
is_entry_intent _ = Bool.false

pub record Quote (F : Type 0) : Type 0 where
  pub symbol : Symbol
  pub ts : Time
  pub bid : F
  pub ask : F
  pub bid_size : F
  pub ask_size : F
  pub session : Session
  pub seq : Option ℕ
  pub recv_ts : Time

pub record Trade (F : Type 0) : Type 0 where
  pub symbol : Symbol
  pub ts : Time
  pub price : F
  pub size : F
  pub aggressor : Option Side
  pub session : Session
  pub seq : Option ℕ
  pub recv_ts : Time

pub record Signal (F : Type 0) : Type 0 where
  pub symbol : Symbol
  pub ts : Time
  pub side : Side
  pub action : GovernorAction
  pub score : F
  pub reference_price : F
  pub stop_price : F
  pub target_price : F
  pub trace_id : ℕ

-- The `metadata` that nothing in the modelled code reads is left out.
pub record OrderRequest (F : Type 0) : Type 0 where
  pub symbol : Symbol
  pub side : Side
  pub quantity : F
  pub order_type : OrderType
  pub limit_price : Option F
  pub client_order_id : Coid
  pub trace_id : ℕ
  pub intent : Intent

pub record Fill (F : Type 0) : Type 0 where
  pub symbol : Symbol
  pub side : Side
  pub quantity : F
  pub price : F
  pub ts : Time
  pub client_order_id : Coid
  pub trace_id : ℕ
  pub is_partial : Bool

pub record Position (F : Type 0) : Type 0 where
  pub symbol : Symbol
  pub side : Side
  pub quantity : F
  pub entry_price : F
  pub opened_at : Time
  pub stop_price : F
  pub target_price : F
  pub signal_score : F
  pub trace_id : ℕ
  pub action : GovernorAction
  pub max_favorable : F
  pub max_adverse : F
  pub realized_pnl : F
  pub exited_qty : F
  pub exit_notional : F

module _ {F : Type 0} ⦃f : Float F⦄ where
  -- `side.sign * x`
  unfoldable pub signed : Side → F → F
  signed buy x = lit 1 ⊗ x
  signed sell x = neg (lit 1) ⊗ x

  unfoldable pub mid : Quote F → F
  mid q = (q.bid ⊕ q.ask) ⊘ lit 2

  unfoldable pub spread : Quote F → F
  unfolding max
  spread q = max (lit 0) (q.ask ⊖ q.bid)

  unfoldable pub spread_bps : Quote F → F
  unfolding mid spread
  spread_bps q = if lt (lit 0) (mid q) then lit 10_000 ⊗ spread q ⊘ mid q else f.inf

  unfoldable pub microprice : Quote F → F
  unfolding mid
  microprice q =
      let total = q.bid_size ⊕ q.ask_size in
      if le total (lit 0) then mid q else (q.ask ⊗ q.bid_size ⊕ q.bid ⊗ q.ask_size) ⊘ total

  unfoldable pub unrealized_pnl : Position F → F → F
  unfolding signed
  unrealized_pnl p mark = signed p.side (mark ⊖ p.entry_price) ⊗ p.quantity

  unfoldable pub update_excursions : F → Position F → Position F
  unfolding signed max min
  update_excursions mark p =
      let pnl_per_share = signed p.side (mark ⊖ p.entry_price) in
      record p {
        max_favorable = max p.max_favorable pnl_per_share;
        max_adverse = min p.max_adverse pnl_per_share;
      }
