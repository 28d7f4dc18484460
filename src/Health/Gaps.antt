-- ===== src/Health/Gaps.antt =====
-- broker/health.py: what the gap count counts.
use liquidity_bot.Prelude.{
  ℕ, suc, ◌+◌, ◌<◌, ◌≡◌, refl, some, List, [], ◌∷◌, arith, lookup, get_or, lookup-insert_self,
  length,
}
use liquidity_bot.Models.{Symbol, Time}
use liquidity_bot.Health.{SymbolHealth, DataHealthMonitor, missing, on_event}

-- the events of one symbol, each with its sequence number
unfoldable pub on_events : Symbol → List (Time × ℕ) → DataHealthMonitor → DataHealthMonitor
on_events s [] m = m
on_events s ((ts, seq) ∷ es) m = on_events s es (on_event s ts (some seq) m)

-- The sequence numbers rise, from above `n`.
unfoldable pub Ascending : ℕ → List (Time × ℕ) → Type 0
Ascending n [] = Unit {0}
Ascending n ((_, seq) ∷ es) = (n < seq) × Ascending seq es

-- the last of them
abbrev pub last_seq : ℕ → List (Time × ℕ) → ℕ
last_seq n [] = n
last_seq n ((_, seq) ∷ es) = last_seq seq es

missing-above : (n seq : ℕ) → n < seq → missing (some n) (some seq) + suc n ≡ seq
unfolding missing
missing-above n seq h = ground arith

on_event-stored :
    (s : Symbol) (ts : Time) (seq n : ℕ) (m : DataHealthMonitor) (h : SymbolHealth)
    → lookup s m.symbols ≡ some h
    → h.last_seq ≡ some n
    → n < seq
    → (h' : SymbolHealth) × (lookup s (on_event s ts (some seq) m).symbols ≡ some h')
      × (h'.last_seq ≡ some seq)
      × (h'.gap_count + suc n ≡ h.gap_count + seq)
unfolding on_event
on_event-stored s ts seq n m h e last up =
    let lost = missing (some n) (some seq) in
    let h' : SymbolHealth = record {
      last_event = some ts;
      last_seq = some seq;
      gap_count = h.gap_count + lost;
    } in
    let above = missing-above n seq up in
    (h', rw (get_or, e, last) (lookup-insert_self s h' m.symbols), refl, omega arith)

-- For events whose sequence numbers rise, the growth of a symbol's gap count is exactly the count of
-- the numbers that were skipped.
pub on_events-gap_count :
    (s : Symbol) (es : List (Time × ℕ)) (n : ℕ) (m : DataHealthMonitor) (h : SymbolHealth)
    → lookup s m.symbols ≡ some h
    → h.last_seq ≡ some n
    → Ascending n es
    → (h' : SymbolHealth) × (lookup s (on_events s es m).symbols ≡ some h')
      × (h'.gap_count + length es + n ≡ h.gap_count + last_seq n es)
unfolding on_events Ascending
on_events-gap_count s [] n m h e last up = (h, e, omega arith)
on_events-gap_count s ((ts, seq) ∷ es) n m h e last (up, ups) =
    let (h₁, e₁, last₁, count₁) = on_event-stored s ts seq n m h e last up in
    let (h₂, e₂, count₂) =
      on_events-gap_count s es seq (on_event s ts (some seq) m) h₁ e₁ last₁ ups in
    (h₂, e₂, omega arith)
