-- ===== src/Runtime/Reservations.antt =====
-- runtime.py: what the order manager promises holds all through a session.
use liquidity_bot.Prelude.{ℕ, List, [], ◌∷◌, All}
use liquidity_bot.Float.{Float, IsOrdered, lit, ◌≼◌}
use liquidity_bot.Runtime.{Engine, Naming}
use liquidity_bot.Runtime.Events.{Occurrence, handle, session, IsPriced}
use liquidity_bot.Runtime.Invariant.{IsFit, Leads}
use liquidity_bot.Runtime.Traversal.{Rules, handle-R}
use liquidity_bot.Runtime.Decisions.{Leads-rules}

module _ {F : Type 0} ⦃f : Float F⦄ (laws : IsOrdered F) where
  module _ (names : Naming) (pow : F → F → F) (random : ℕ → F) where
    handle-Leads :
        (x : Occurrence F) (e : Engine F)
        → IsPriced x.event
        → lit 0 ≼ e.venue.cfg.partial_fill_min_shares
        → Leads e (handle names pow random x e).1
    handle-Leads = handle-R laws Leads (Leads-rules laws) names pow random

    -- From an engine whose order manager meets its invariant (no order books or reserves a negative amount,
    -- an ended one reserves nothing, the notional reserved by the others is at most the limit, and no symbol
    -- has two active entry orders) and whose least fill and risk per trade are not negative, the same holds
    -- after any quotes at prices that are not negative, trades, ticks and shutdowns, in paper or live mode,
    -- also where a handler raises.
    pub session-IsFit :
        (xs : List (Occurrence F)) (e : Engine F)
        → All (λ x. IsPriced x.event) xs
        → IsFit e
        → IsFit (session names pow random xs e)
    unfolding session
    session-IsFit [] e h x = x
    session-IsFit (ev ∷ xs) e h x =
        session-IsFit xs (handle names pow random ev e).1 h.1
          ((handle-Leads ev e h.0 x.least).fit x)

    -- What every handler keeps, a session keeps.
    pub session-R :
        (R : Engine F → Engine F → Type 0)
        → Rules R
        → (xs : List (Occurrence F)) (e : Engine F) → All (λ x. IsPriced x.event) xs
        → IsFit e
        → R e (session names pow random xs e)
    unfolding session
    session-R R rules [] e h x = rules.stay e
    session-R R rules (ev ∷ xs) e h x =
        let e' = (handle names pow random ev e).1 in
        rules.trans e e' (session names pow random xs e')
          (handle-R laws R rules names pow random ev e h.0 x.least)
          (session-R R rules xs e' h.1 ((handle-Leads ev e h.0 x.least).fit x))
