-- ===== src/Runtime/Tests.antt =====
-- A paper session: a quote that fires no rule, a print and a tick.
use liquidity_bot.Prelude.{◌⊎◌, ℕ, ◌≤◌, ◌≡◌, refl, arith, true, false, none, some, List, [], ◌∷◌}
use liquidity_bot.LogFile.{empty_file}
use liquidity_bot.Float.{◌≼◌, abs}
use liquidity_bot.LogFile.{empty_file}
use liquidity_bot.Float.Fixed.{ℤ, num, fixed, fixed-IsOrdered}
use liquidity_bot.Models.{Trade, rth, Signal, mid}
use liquidity_bot.Models.Samples.{vector, quote, strategy, risk_config}
use liquidity_bot.Models.Features.{FeatureVector}
use liquidity_bot.Orders.{reserved_notional, sum_notional, active_entry_symbols}
use liquidity_bot.Orders.Samples.{half}
use liquidity_bot.Risk
use liquidity_bot.Risk.{kill_switch}
use liquidity_bot.Orders.Evolution.{IsSound}
use liquidity_bot.Orders.Invariant.{IsValid}
use liquidity_bot.Ledger.{load_day}
use liquidity_bot.Governor.Samples.{governor}
use liquidity_bot.Reconciler.{
  BrokerReadView, reconcile, compare_positions, mismatches, local_qty, absent_in, mismatch,
}
use liquidity_bot.Session.Samples
use liquidity_bot.Venue.Samples.{venue}
use liquidity_bot.Runtime.{Engine, Settings, View, Naming}
use liquidity_bot.Runtime.Loop.{check_broker, recover}
use liquidity_bot.Orders.Methods.{poll}
use liquidity_bot.Orders.{ok, partial}
use liquidity_bot.Runtime.Events.{Event, Occurrence, session}
use liquidity_bot.Runtime.Invariant.{IsFit}
use liquidity_bot.Runtime.Reservations.{session-IsFit}
use liquidity_bot.Runtime.Calm.{entries, is_killed}
use liquidity_bot.Runtime.Exits.{IsSingle, session-IsSingle}
use liquidity_bot.Orders.Active.{active_symbols}
use liquidity_bot.Runtime.Recovery.{recover-Forgets}
use liquidity_bot.Runtime.KillSwitch.{session-no_entries, check_broker-FailsClosed}

-- a date and a symbol as one letter each, and one number for all ids
abbrev names : Naming
names = record { date_text = λ t. b'D' ∷ []; symbol_text = λ s. b'A' ∷ []; coid_of = λ id. 8 }

abbrev pow : ℤ → ℤ → ℤ
pow x y = x

abbrev random : ℕ → ℤ
random n = num 1 4

abbrev settings : Settings ℤ
settings = record {
  strategy = strategy;
  symbols = 1 ∷ [];
  signal_interval_ms = 250;
  min_data_confidence = num 1 2;
  reconcile_interval_s = 60;
  risk_per_trade_usd = num 50 1;
  latency_ms = 150;
}

abbrev idle : Engine ℤ
idle = record {
  s = settings;
  live = false;
  core = Samples.engine half;
  journal = record { path = empty_file; seen = []; seq = [] };
  venue = venue;
  governor = governor;
  trade_rate = [];
  last_recon = none;
  last_eval = [];
  emergency = false;
  sent = [];
  cancels = [];
}

-- the same engine with the kill switch on
abbrev killed : Engine ℤ
killed = record idle {
  core = record (Samples.engine half) {
    risk = record (Samples.engine half).risk { cfg = record risk_config { kill_switch = true } };
  };
}

abbrev broker : BrokerReadView ℤ
broker = record { read_account_ok = some true; read_positions = some ((1, num 100 1) ∷ []) }

abbrev print : Trade ℤ
print = record {
  symbol = 1;
  ts = 1_000_000;
  price = num 999 100;
  size = num 100 1;
  aggressor = none;
  session = rth;
  seq = none;
  recv_ts = 1_000_000;
}

abbrev view : View ℤ
view = record { features = some vector; anomalous = false; sector_return = num 0 1; trace = 4 }

abbrev occurs : Event ℤ → Occurrence ℤ
occurs ev = record { now = 1_000_000; today = 6; broker = broker; event = ev }

abbrev day : List (Occurrence ℤ)
day =
    occurs (Event.quote true view quote) ∷ occurs (Event.trade true print) ∷ occurs Event.tick ∷ []

half-IsSound : IsSound half
half-IsSound = record {
  filled_nonneg = refl;
  risk_nonneg = refl;
  notional_nonneg = refl;
  risk_freed = λ h. cc;
  notional_freed = λ h. cc;
}

om-IsValid : IsValid (Samples.engine half).om
unfolding reserved_notional sum_notional active_entry_symbols
om-IsValid = record { sound = (half-IsSound, tt); within = refl; single = λ s. ground arith }

idle-IsFit : IsFit idle
idle-IsFit = record { valid = om-IsValid; least = refl; risk = refl }

killed-IsFit : IsFit killed
killed-IsFit = record { valid = om-IsValid; least = refl; risk = refl }

quote_priced : num 0 1 ≼ mid quote
unfolding mid
quote_priced = refl

session-IsFit_example : IsFit (session names pow random day idle)
session-IsFit_example =
    session-IsFit fixed-IsOrdered names pow random day idle (quote_priced, (tt, (tt, tt)))
      idle-IsFit

session-no_entries_example :
    (is_killed (session names pow random day killed) ≡ true)
    × (entries 1 (session names pow random day killed).core.om ≤ entries 1 killed.core.om)
session-no_entries_example =
    session-no_entries fixed-IsOrdered names pow random day killed 1 (quote_priced, (tt, (tt, tt)))
      killed-IsFit refl

-- a live engine that holds nothing, where the broker holds a hundred shares
abbrev live : Engine ℤ
live = record idle { live = true }

check_broker-FailsClosed_example :
    ((later : ℕ) (sig : Signal ℤ) (v : FeatureVector ℤ)
      → Risk.approve sig v [] later (check_broker 5 6 broker live).core.risk ≡ (false, kill_switch))
    × (((load_day 6 (check_broker 5 6 broker live).core.risk2.ledger).halted ≡ true)
        ⊎ (live.core.risk2.ledger.unended ≡ true))
unfolding reconcile compare_positions mismatches local_qty absent_in mismatch abs
check_broker-FailsClosed_example = check_broker-FailsClosed 5 6 broker live refl refl

-- an engine that starts from a journal with a half-filled order
abbrev restarted : Engine ℤ
restarted = record idle {
  core = record (Samples.engine half) {
    om = record { max_gross_notional = num 5000 1; orders = []; journal = []; ended = [] };
  };
  journal = record {
    path = record {
      lines =
          some (record {
            id = b'7' ∷ [];
            seq_key = none;
            seq = 0;
            request = half.request;
            status = partial;
            filled = num 50 1;
          })
          ∷ [];
      unended = false;
    };
    seen = (b'7' ∷ []) ∷ [];
    seq = [];
  };
}

recover-Forgets_example :
    (reserved_notional (recover 6 broker restarted).1.core.om ≡ num 0 1)
    × ((now : ℕ)
        → poll now (recover 6 broker restarted).1.core.om
          ≡ (ok [], (recover 6 broker restarted).1.core.om))
recover-Forgets_example = recover-Forgets fixed-IsOrdered 6 broker restarted refl

idle-IsSingle : IsSingle idle
unfolding active_symbols
idle-IsSingle s = omega arith

session-IsSingle_example : IsSingle (session names pow random day idle)
session-IsSingle_example =
    session-IsSingle fixed-IsOrdered names pow random day idle (quote_priced, (tt, (tt, tt)))
      idle-IsFit idle-IsSingle
