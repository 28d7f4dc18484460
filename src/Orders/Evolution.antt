-- ===== src/Orders/Evolution.antt =====
-- How one call changes the orders: each keeps its request, a terminal one its state, and what is
-- reserved for it does not grow.
use liquidity_bot.Prelude.{
  ℕ, ◌+◌, ◌^◌, ◌≡◌, refl, ap, ◌∙◌, inl, inr, true, some, [], ◌∷◌, arith, subst, Bool-cases, Dict,
  lookup, insert, ◌==◌, ==_iff,
}
use liquidity_bot.Float.{Float, IsOrdered, ◌⊕◌, lit, ratio, lt, ◌≼◌, ◌≺◌, max}
use liquidity_bot.Float.Order
use liquidity_bot.Models.{Coid, Time, Fill}
use liquidity_bot.Orders.{
  OState, Event, terminal, legal, ManagedOrder, OrderManager, Outcome, remaining, moved, transition,
}
use liquidity_bot.Orders.Methods.{answer, book_fill, kept_share, average_price}

module _ {F : Type 0} ⦃f : Float F⦄ where
  -- What is booked on an order is never negative, and a terminal order reserves nothing.
  pub record IsSound (o : ManagedOrder F) : Type 0 where
    pub filled_nonneg : lit 0 ≼ o.filled_qty
    pub risk_nonneg : lit 0 ≼ o.reserved_risk_usd
    pub notional_nonneg : lit 0 ≼ o.reserved_notional_usd
    pub risk_freed : terminal o.state ≡ true → o.reserved_risk_usd ≡ lit 0
    pub notional_freed : terminal o.state ≡ true → o.reserved_notional_usd ≡ lit 0

  pub record Advances (o o' : ManagedOrder F) : Type 0 where
    pub same_request : o'.request ≡ o.request
    pub absorbed : terminal o.state ≡ true → o'.state ≡ o.state
    pub risk_le : IsSound o → o'.reserved_risk_usd ≼ o.reserved_risk_usd
    pub notional_le : IsSound o → o'.reserved_notional_usd ≼ o.reserved_notional_usd
    pub sound : IsSound o → IsSound o'

  -- The same keys in the same places, and each order has advanced.
  abbrev pub Evolves : Dict (ManagedOrder F) → Dict (ManagedOrder F) → Type 0
  Evolves [] [] = Unit
  Evolves ((k, o) ∷ d) ((k', o') ∷ d') = (k' ≡ k) × Advances o o' × Evolves d d'
  Evolves _ _ = ⊥

  abbrev pub Follows : OrderManager F → OrderManager F → Type 0
  Follows om om' = (om'.max_gross_notional ≡ om.max_gross_notional) × Evolves om.orders om'.orders

  module _ (laws : IsOrdered F) where
    open laws use {le_refl, le_trans}

    pub Advances-refl : (o : ManagedOrder F) → Advances o o
    Advances-refl o = record {
      same_request = refl;
      absorbed = λ _. refl;
      risk_le = λ _. le_refl _;
      notional_le = λ _. le_refl _;
      sound = λ s. s;
    }

    pub Evolves-refl : (d : Dict (ManagedOrder F)) → Evolves d d
    Evolves-refl [] = tt
    Evolves-refl ((k, o) ∷ d) = (refl, Advances-refl o, Evolves-refl d)

    pub Follows-refl : (om : OrderManager F) → Follows om om
    Follows-refl om = (refl, Evolves-refl om.orders)

    pub Advances-trans : (o p q : ManagedOrder F) → Advances o p → Advances p q → Advances o q
    Advances-trans o p q h k = record {
      same_request = k.same_request ∙ h.same_request;
      absorbed = λ t. k.absorbed (ap terminal (h.absorbed t) ∙ t) ∙ h.absorbed t;
      risk_le = λ s. le_trans _ _ _ (k.risk_le (h.sound s)) (h.risk_le s);
      notional_le = λ s. le_trans _ _ _ (k.notional_le (h.sound s)) (h.notional_le s);
      sound = λ s. k.sound (h.sound s);
    }

    pub Evolves-trans : (a b c : Dict (ManagedOrder F)) → Evolves a b → Evolves b c → Evolves a c
    Evolves-trans [] [] [] h k = tt
    Evolves-trans ((x, o) ∷ a) ((y, p) ∷ b) ((z, q) ∷ c) (e, u, h) (e', v, k) =
        (e' ∙ e, Advances-trans o p q u v, Evolves-trans a b c h k)
    Evolves-trans [] (_ ∷ _) c h k = absurd h
    Evolves-trans (_ ∷ _) [] c h k = absurd h
    Evolves-trans _ (_ ∷ _) [] h k = absurd k
    Evolves-trans _ [] (_ ∷ _) h k = absurd k

    -- Writing an advanced order over the one that its key finds.
    pub insert-Evolves :
        (k : ℕ) (o o' : ManagedOrder F) (d : Dict (ManagedOrder F))
        → lookup k d ≡ some o
        → Advances o o'
        → Evolves d (insert k o' d)
    insert-Evolves k o o' [] e h = cc
    insert-Evolves k o o' ((j, p) ∷ d) e h = elim (Bool-cases (k == j)) [
      | inl same ↦
          rw same ((==_iff k j).0 same, subst (λ x. Advances x o') (ground arith) h, Evolves-refl d)
      | inr other ↦ rw other (refl, Advances-refl p, insert-Evolves k o o' d (ground arith) h)
    ]

    moved-Advances :
        (now : Time) (to : OState) (o : ManagedOrder F)
        → legal o.state to ≡ true
        → Advances o (moved now to o)
    unfolding moved
    moved-Advances now to o h = record {
      same_request = ground arith;
      absorbed = λ t. ground arith;
      risk_le = λ s. ground (arith, s.risk_nonneg, le_refl o.reserved_risk_usd);
      notional_le = λ s. ground (arith, s.notional_nonneg, le_refl o.reserved_notional_usd);
      sound =
          λ s. ground (arith, le_refl (lit 0), s.risk_nonneg, s.notional_nonneg, s.filled_nonneg);
    }

    pub transition-Follows :
        (now : Time) (k : Coid) (p o : ManagedOrder F) (to : OState) (why : Event)
        (om : OrderManager F)
        → lookup k om.orders ≡ some p
        → Advances p o
        → Follows om (transition now k o to why om).1
    unfolding transition
    transition-Follows now k p o to why om e h = elim (Bool-cases (legal o.state to)) [
      | inl allowed ↦ rw allowed (
        refl,
        insert-Evolves k p (moved now to o) om.orders e
            (Advances-trans p o _ h (moved-Advances now to o allowed)),
      )
      | inr refused ↦ rw refused (refl, insert-Evolves k p o om.orders e h)
    ]

    pub answer-same : {A : Type 0} (a : A) (r : Outcome F (Unit {0})) → (answer a r).1 ≡ r.1
    unfolding answer
    answer-same a r = ground arith

    -- What remains of an order is never more than its quantity.
    remaining-le :
        (o : ManagedOrder F) → lit 0 ≼ o.filled_qty → remaining o ≼ max (lit 0) o.request.quantity
    unfolding remaining
    remaining-le o h =
        Order.max-le laws _ _ _ (Order.le-max_left laws _ _)
          (le_trans _ _ _ (Order.sub-le_nonneg laws _ _ h) (Order.le-max_right laws _ _))

    -- The share of the reservation that a fill leaves lies between none and all of it.
    pub kept_share_bounds :
        (o : ManagedOrder F)
        → lit 0 ≼ o.filled_qty
        → (lit 0 ≼ kept_share o) × (kept_share o ≼ lit 1)
    unfolding kept_share
    kept_share_bounds o h =
        let qty = max o.request.quantity (ratio 1 (10 ^ 12)) in
        let qty_pos : lit 0 ≺ qty = Order.guarded_pos laws o.request.quantity in
        let fits : remaining o ≼ qty = le_trans _ _ _ (remaining-le o h) (
          Order.max-le laws _ _ _ (Order.le_of_lt laws _ _ qty_pos) (Order.le-max_left laws _ _)) in
        elim (Bool-cases (lt (lit 0) (remaining o))) [
          | inl more ↦ rw more (
            Order.div_nonneg laws _ _ (Order.le_of_lt laws _ _ more) qty_pos,
            Order.div-le-one laws _ _ fits qty_pos,
          )
          | inr over ↦ rw over (le_refl (lit 0), Order.zero-le-one laws)
        ]

    pub book_fill-Advances :
        (fill : Fill F) (o : ManagedOrder F) → lit 0 ≼ fill.quantity → Advances o (book_fill fill o)
    unfolding book_fill
    book_fill-Advances fill o h = record {
      same_request = refl;
      absorbed = λ _. refl;
      risk_le = λ s. Order.mul-le laws _ _ s.risk_nonneg (kept s).1;
      notional_le = λ s. Order.mul-le laws _ _ s.notional_nonneg (kept s).1;
      sound = λ s. record {
        filled_nonneg = more s;
        risk_nonneg = Order.mul_nonneg laws _ _ s.risk_nonneg (kept s).0;
        notional_nonneg = Order.mul_nonneg laws _ _ s.notional_nonneg (kept s).0;
        risk_freed = λ t. rw (s.risk_freed t, Order.zero-mul laws);
        notional_freed = λ t. rw (s.notional_freed t, Order.zero-mul laws);
      };
    }
      where
        grown : ManagedOrder F
        grown = record o {
          avg_fill_price = average_price fill o;
          filled_qty = o.filled_qty ⊕ fill.quantity;
        }

        more : IsSound o → lit 0 ≼ o.filled_qty ⊕ fill.quantity
        more s = Order.add_nonneg laws _ _ s.filled_nonneg h

        kept : IsSound o → (lit 0 ≼ kept_share grown) × (kept_share grown ≼ lit 1)
        kept s = kept_share_bounds grown (more s)

    pub repeat-Advances :
        (o p : ManagedOrder F) → Advances o p → Advances o (record p { revision = p.revision + 1 })
    repeat-Advances o p h = record {
      same_request = h.same_request;
      absorbed = h.absorbed;
      risk_le = h.risk_le;
      notional_le = h.notional_le;
      sound = λ s.
          let t = h.sound s in
          record {
            filled_nonneg = t.filled_nonneg;
            risk_nonneg = t.risk_nonneg;
            notional_nonneg = t.notional_nonneg;
            risk_freed = t.risk_freed;
            notional_freed = t.notional_freed;
          };
    }
