-- ===== src/Health.antt =====
-- broker/health.py: the data-health monitor that the governor consults. An age is compared by sums.
pub mod Gaps
mod Tests
use liquidity_bot.Prelude.{
  ℕ, ◌+◌, ◌-◌, ◌*◌, ◌<◌, ◌≤◌, ◌≡◌, refl, ◌↔◌, Bool, true, false, not, Option, none, some, ltb,
  arith, if◌then◌else◌, Dict, lookup, has_key, get_or, insert, Option-cases, inl, inr,
}
use liquidity_bot.Models.{Symbol, Time}

pub record SymbolHealth : Type 0 where
  pub last_event : Option Time
  pub last_seq : Option ℕ
  pub gap_count : ℕ

pub record DataHealthMonitor : Type 0 where
  pub stale_ms : ℕ
  pub gap_tolerance : ℕ
  pub connected : Bool
  pub reconnect_count : ℕ
  pub dropped_messages : ℕ
  pub symbols : Dict SymbolHealth

pub data Health : Type 0 where
  healthy stream_disconnected no_data stale_data : Health
  sequence_gaps : ℕ → Health

unfoldable pub on_connect : DataHealthMonitor → DataHealthMonitor
on_connect m = record m { connected = true }

unfoldable pub on_disconnect : DataHealthMonitor → DataHealthMonitor
on_disconnect m = record m { connected = false; reconnect_count = m.reconnect_count + 1 }

abbrev pub unseen : SymbolHealth
unseen = record { last_event = none; last_seq = none; gap_count = 0 }

-- the messages missing before `seq`
unfoldable pub missing : Option ℕ → Option ℕ → ℕ
missing (some last) (some seq) = if ltb (last + 1) seq then seq - last - 1 else 0
missing _ _ = 0

-- `seq` where there is one, or else the old one
abbrev pub or_last : Option ℕ → Option ℕ → Option ℕ
or_last none last = last
or_last (some seq) last = some seq

unfoldable pub on_event : Symbol → Time → Option ℕ → DataHealthMonitor → DataHealthMonitor
on_event s ts seq m =
    let h = get_or s unseen m.symbols in
    let lost = missing h.last_seq seq in
    record m {
      dropped_messages = m.dropped_messages + lost;
      symbols =
          insert s
            (record {
              last_event = some ts;
              last_seq = or_last seq h.last_seq;
              gap_count = h.gap_count + lost;
            })
            m.symbols;
    }

-- the verdict of `is_healthy` on a symbol's last event
unfoldable pub verdict : DataHealthMonitor → SymbolHealth → Time → Time → Bool × Health
verdict m h last now =
    if ltb (last + m.stale_ms * 1000) now
    then (false, stale_data)
    else if ltb m.gap_tolerance h.gap_count
    then (false, sequence_gaps h.gap_count)
    else (true, healthy)

unfoldable pub is_healthy : Symbol → Time → DataHealthMonitor → Bool × Health
is_healthy s now m =
    if not m.connected then (false, stream_disconnected) else elim (lookup s m.symbols) [
      | none ↦ (false, no_data)
      | some h ↦ elim h.last_event [ none ↦ (false, no_data) | some last ↦ verdict m h last now ]
    ]

unfoldable pub reset_gaps : Symbol → DataHealthMonitor → DataHealthMonitor
reset_gaps s m = elim (lookup s m.symbols) [
  | none ↦ m
  | some h ↦ record m { symbols = insert s (record h { gap_count = 0 }) m.symbols }
]

verdict-true :
    (m : DataHealthMonitor) (h : SymbolHealth) (last now : Time)
    → (verdict m h last now).0 ≡ true
    → (now ≤ last + m.stale_ms * 1000) × (h.gap_count ≤ m.gap_tolerance)
unfolding verdict
verdict-true m h last now e = ground arith

-- A symbol is healthy only on a connected stream, with an event of at most the stale age, and with no
-- more missing messages than are tolerated: what is unknown is unhealthy.
pub is_healthy-recent :
    (s : Symbol) (now : Time) (m : DataHealthMonitor)
    → (is_healthy s now m).0 ≡ true
    → (h : SymbolHealth) × (last : Time) × (m.connected ≡ true)
      × (lookup s m.symbols ≡ some h)
      × (h.last_event ≡ some last)
      × (now ≤ last + m.stale_ms * 1000)
      × (h.gap_count ≤ m.gap_tolerance)
unfolding is_healthy
is_healthy-recent s now m e = elim (Option-cases (lookup s m.symbols)) [
  | inl absent ↦ ground arith
  | inr (h, stored) ↦ elim (Option-cases h.last_event) [
    | inl never ↦ ground arith
    | inr (last, seen) ↦
        let on : m.connected ≡ true = ground arith in
        let (recent, within) = verdict-true m h last now (ground arith) in
        (h, last, on, stored, seen, recent, within)
  ]
]
