-- ===== src/Ledger/Refinement.antt =====
-- execution/ledger.py and positions.py: the positions rebuilt from the log stand for the live ones.
use liquidity_bot.Prelude.{
  ◌^◌, ◌≡◌, ◌≢◌, refl, ap, ◌∙◌, true, false, not, Option, none, some, arith, if◌then◌else◌, ◌==◌,
  ==_iff, Bool-cases, inl, inr, ◌⊎◌, Dict, lookup, insert, erase, lookup-insert_self,
  lookup-insert_ne, lookup-erase_self, lookup-erase_ne,
}
use liquidity_bot.Float.{Float, IsOrdered, ◌⊕◌, ◌⊖◌, lit, ratio, le, lt, min}
use liquidity_bot.Float.Order
use liquidity_bot.Models.{Symbol, Signal, Fill, Position}
use liquidity_bot.Positions.{
  ExitReason, PositionManager, opened, enlarged, reduced, settle_exit, is_open, on_entry_fill,
  on_exit_fill,
}
use liquidity_bot.Ledger.PositionLog.{entry, exit, Book, new_book, book_entry, book_exit, net}

pub differs : (s k : Symbol) → (s == k) ≡ false → s ≢ k
differs s k h e = ground (arith, ==_iff s k)

module _ {F : Type 0} ⦃f : Float F⦄ where
  -- a book stands for a position: all that exits and a restart rely on, but the average price
  pub record Matches (b : Book F) (p : Position F) : Type 0 where
    pub side : b.side ≡ p.side
    pub qty : b.qty ≡ p.quantity
    pub ts : b.ts ≡ p.opened_at
    pub stop : b.stop ≡ p.stop_price
    pub tgt : b.tgt ≡ p.target_price
    pub action : b.action ≡ p.action

  -- at one symbol: none on both sides, or a matching pair
  abbrev pub Agree : Option (Book F) → Option (Position F) → Type 0
  Agree none none = Unit {0}
  Agree (some b) (some p) = Matches b p
  Agree _ _ = ⊥

  abbrev pub AgreeAt : Dict (Book F) → Dict (Position F) → Symbol → Type 0
  AgreeAt book positions s = Agree (lookup s book) (lookup s positions)

  AgreeAt-insert :
      (k : Symbol) (b : Book F) (p : Position F) (book : Dict (Book F))
      (positions : Dict (Position F))
      → Matches b p
      → ((s : Symbol) → AgreeAt book positions s)
      → (s : Symbol) → AgreeAt (insert k b book) (insert k p positions) s
  AgreeAt-insert k b p book positions m h s = elim (Bool-cases (s == k)) [
    | inl e ↦ rw ((==_iff s k).0 e, lookup-insert_self k b book, lookup-insert_self k p positions) m
    | inr ne ↦
        rw
          (
            lookup-insert_ne s k b book (differs s k ne),
            lookup-insert_ne s k p positions (differs s k ne),
          )
          (h s)
  ]

  AgreeAt-erase :
      (k : Symbol) (book : Dict (Book F)) (positions : Dict (Position F))
      → ((s : Symbol) → AgreeAt book positions s)
      → (s : Symbol) → AgreeAt (erase k book) (erase k positions) s
  AgreeAt-erase k book positions h s = elim (Bool-cases (s == k)) [
    | inl e ↦ rw ((==_iff s k).0 e, lookup-erase_self k book, lookup-erase_self k positions) tt
    | inr ne ↦
        rw
          (
            lookup-erase_ne s k book (differs s k ne),
            lookup-erase_ne s k positions (differs s k ne),
          )
          (h s)
  ]

  -- the two sides of an agreement at one symbol
  pub Agree-cases :
      (o : Option (Book F)) (q : Option (Position F))
      → Agree o q
      → ((o ≡ none) × (q ≡ none))
        ⊎ ((b : Book F) × (p : Position F) × (o ≡ some b) × (q ≡ some p) × Matches b p)
  Agree-cases none none h = inl (refl, refl)
  Agree-cases none (some p) h = absurd h
  Agree-cases (some b) none h = absurd h
  Agree-cases (some b) (some p) h = inr (b, p, refl, refl, h)

  module _ (laws : IsOrdered F) where
    opened-Matches :
        (fill : Fill F) (sig : Signal F)
        → Matches (book_entry fill (new_book fill sig)) (opened fill sig)
    unfolding book_entry new_book opened
    opened-Matches fill sig = record {
      side = refl;
      qty = laws.add_comm (lit 0) fill.quantity ∙ laws.add-zero fill.quantity;
      ts = refl;
      stop = refl;
      tgt = refl;
      action = refl;
    }

    enlarged-Matches :
        (fill : Fill F) (b : Book F) (p : Position F)
        → Matches b p
        → Matches (book_entry fill b) (enlarged fill p)
    unfolding book_entry enlarged
    enlarged-Matches fill b p m = record {
      side = m.side;
      qty = ap (λ q. q ⊕ fill.quantity) m.qty;
      ts = m.ts;
      stop = m.stop;
      tgt = m.tgt;
      action = m.action;
    }

    pub entry-AgreeAt :
        (fill : Fill F) (sig : Signal F) (book : Dict (Book F)) (pm : PositionManager F)
        → ((s : Symbol) → AgreeAt book pm.positions s)
        → (s : Symbol) → AgreeAt (net (entry fill sig) book) (on_entry_fill fill sig pm).positions s
    unfolding net on_entry_fill
    entry-AgreeAt fill sig book pm h =
        elim (Agree-cases (lookup fill.symbol book) (lookup fill.symbol pm.positions)
          (h fill.symbol)) [
            | inl (e, k) ↦
                rw (e, k)
                  (AgreeAt-insert fill.symbol _ _ book pm.positions (opened-Matches fill sig) h)
            | inr (b, p, e, k, m) ↦
                rw (e, k)
                  (AgreeAt-insert fill.symbol _ _ book pm.positions (enlarged-Matches fill b p m) h)
          ]

    tiny_nonneg : f.le (f.ratio 0 1) (f.ratio 1 (10 ^ 9)) ≡ true
    tiny_nonneg = laws.ratio_mono 0 1 1 (10 ^ 9) (omega arith) (omega arith) (omega arith)

    -- The live quantity stops at zero where a fill is too large and the logged one does not: both are
    -- closed there, and they are equal elsewhere.
    exit_quantities :
        (q x : F)
        → let live = q ⊖ min x q in
          ((le (q ⊖ x) (ratio 1 (10 ^ 9)) ≡ true) × (lt (ratio 1 (10 ^ 9)) live ≡ false))
          ⊎ ((le (q ⊖ x) (ratio 1 (10 ^ 9)) ≡ false)
              × (lt (ratio 1 (10 ^ 9)) live ≡ true)
              × (q ⊖ x ≡ live))
    unfolding min
    exit_quantities q x =
        let tiny = ratio 1 (10 ^ 9) in
        elim (Bool-cases (lt q x)) [
          | inl over ↦
              let nothing : le (q ⊖ q) tiny ≡ true = rw (laws.sub-self q) tiny_nonneg in
              let below =
                laws.le_trans _ _ _ (laws.sub_anti q x q (Order.le_of_lt laws q x over)) nothing in
              rw over (inl (below, Order.not_lt_of_le laws _ _ nothing))
          | inr within ↦
              let dual = laws.lt-eq-not-le tiny (q ⊖ x) in
              rw within (elim (Bool-cases (le (q ⊖ x) tiny)) [
                | inl closed ↦ inl (closed, dual ∙ ap not closed)
                | inr more ↦ inr (more, dual ∙ ap not more, refl)
              ])
        ]

    settle_exit-positions :
        (fill : Fill F) (r : ExitReason) (pm : PositionManager F) (p : Position F)
        → (settle_exit fill r pm p).0.positions ≡ (
            if is_open p then insert fill.symbol p pm.positions else erase fill.symbol pm.positions)
    unfolding settle_exit
    settle_exit-positions fill r pm p = ground arith

    -- the two sides of an exit of a matching pair
    exit-Matches :
        (fill : Fill F) (b : Book F) (p : Position F)
        → Matches b p
        → ((le (book_exit fill b).qty (ratio 1 (10 ^ 9)) ≡ true)
            × (is_open (reduced fill p) ≡ false))
          ⊎ ((le (book_exit fill b).qty (ratio 1 (10 ^ 9)) ≡ false)
              × (is_open (reduced fill p) ≡ true)
              × Matches (book_exit fill b) (reduced fill p))
    unfolding book_exit reduced
    exit-Matches fill b p m = elim (exit_quantities p.quantity fill.quantity) [
      | inl (closed, shut) ↦ inl (rw m.qty closed, shut)
      | inr (more, open_left, same) ↦ inr (
        rw m.qty more,
        open_left,
        record {
          side = m.side;
          qty = ap (λ q. q ⊖ fill.quantity) m.qty ∙ same;
          ts = m.ts;
          stop = m.stop;
          tgt = m.tgt;
          action = m.action;
        },
      )
    ]

    pub exit-AgreeAt :
        (fill : Fill F) (r : ExitReason) (book : Dict (Book F)) (pm : PositionManager F)
        → ((s : Symbol) → AgreeAt book pm.positions s)
        → (s : Symbol) → AgreeAt (net (exit fill) book) (on_exit_fill fill r pm).0.positions s
    unfolding net on_exit_fill
    exit-AgreeAt fill r book pm h =
        let k = fill.symbol in
        elim (Agree-cases (lookup k book) (lookup k pm.positions) (h k)) [
          | inl (e, j) ↦ rw (e, j) h
          | inr (b, p, e, j, m) ↦
              let live = settle_exit-positions fill r pm (reduced fill p) in
              elim (exit-Matches fill b p m) [
                | inl (closed, shut) ↦
                    rw (e, j, live, closed, shut) (AgreeAt-erase k book pm.positions h)
                | inr (more, open_left, m') ↦
                    rw (e, j, live, more, open_left) (AgreeAt-insert k _ _ book pm.positions m' h)
              ]
        ]
