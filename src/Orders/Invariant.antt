-- ===== src/Orders/Invariant.antt =====
-- execution/order_manager.py: what holds of the orders after any calls. The reservations stay
-- within the cap, and no symbol has two active entries.
use liquidity_bot.Prelude.{
  ℕ, ◌+◌, ◌≤◌, ◌≡◌, ap, inl, inr, true, not, List, [], ◌∷◌, arith, Bool-cases, if◌then◌else◌, Dict,
  All, ◌==◌,
}
use liquidity_bot.Float.{Float, IsOrdered, ◌⊕◌, lit, ◌≼◌}
use liquidity_bot.Float.Order
use liquidity_bot.Models.{Symbol}
use liquidity_bot.Orders.{
  terminal, ManagedOrder, OrderManager, is_active_entry, sum_notional, reserved_notional,
  active_entry_symbols,
}
use liquidity_bot.Orders.Evolution.{IsSound, Advances, Evolves, Follows}

-- how often a symbol stands in a list
abbrev pub count : ℕ → List ℕ → ℕ
count s [] = 0
count s (x ∷ xs) = (if s == x then 1 else 0) + count s xs

module _ {F : Type 0} ⦃f : Float F⦄ where
  abbrev pub AllSound : Dict (ManagedOrder F) → Type 0
  AllSound = All λ e. IsSound e.1

  pub record IsValid (om : OrderManager F) : Type 0 where
    pub sound : AllSound om.orders
    pub within : reserved_notional om ≼ om.max_gross_notional
    pub single : (s : Symbol) → count s (active_entry_symbols om.orders) ≤ 1

  module _ (laws : IsOrdered F) where
    open laws use {le_refl, le_trans}

    Evolves-AllSound : (d d' : Dict (ManagedOrder F)) → Evolves d d' → AllSound d → AllSound d'
    Evolves-AllSound [] [] h s = tt
    Evolves-AllSound ((k, o) ∷ d) ((k', o') ∷ d') (_, a, h) s =
        (a.sound s.0, Evolves-AllSound d d' h s.1)
    Evolves-AllSound [] (_ ∷ _) h s = absurd h
    Evolves-AllSound (_ ∷ _) [] h s = absurd h

    -- one order's part of the sum
    part : F → ManagedOrder F → F
    part acc o = if terminal o.state then acc else acc ⊕ o.reserved_notional_usd

    part_mono :
        (acc acc' : F) (o o' : ManagedOrder F)
        → Advances o o'
        → IsSound o
        → acc' ≼ acc
        → part acc' o' ≼ part acc o
    unfolding part
    part_mono acc acc' o o' a s h = elim (Bool-cases (terminal o.state)) [
      | inl ended ↦ rw (ended, ap terminal (a.absorbed ended), ended) h
      | inr live ↦ elim (Bool-cases (terminal o'.state)) [
        | inl ends ↦
            rw (live, ends) (le_trans _ _ _ h (Order.le-add_nonneg laws acc _ s.notional_nonneg))
        | inr lives ↦ rw (live, lives) (Order.add_mono_both laws _ _ _ _ h (a.notional_le s))
      ]
    ]

    Evolves-sum_notional :
        (d d' : Dict (ManagedOrder F)) (acc acc' : F)
        → Evolves d d'
        → AllSound d
        → acc' ≼ acc
        → sum_notional acc' d' ≼ sum_notional acc d
    unfolding sum_notional part
    Evolves-sum_notional [] [] acc acc' h s k = k
    Evolves-sum_notional ((x, o) ∷ d) ((y, o') ∷ d') acc acc' (_, a, h) s k =
        Evolves-sum_notional d d' (part acc o) (part acc' o') h s.1
          (part_mono acc acc' o o' a s.0 k)
    Evolves-sum_notional [] (_ ∷ _) acc acc' h s k = absurd h
    Evolves-sum_notional (_ ∷ _) [] acc acc' h s k = absurd h

    -- An entry that is active was active before.
    active_before :
        (o o' : ManagedOrder F)
        → Advances o o'
        → is_active_entry o' ≡ true
        → is_active_entry o ≡ true
    active_before o o' a h = elim (Bool-cases (terminal o.state)) [
      | inl ended ↦ ground (arith, ap terminal (a.absorbed ended))
      | inr live ↦ rw live (ground (arith, a.same_request))
    ]

    count-entry :
        (s : Symbol) (o o' : ManagedOrder F) (xs xs' : List Symbol)
        → Advances o o'
        → count s xs' ≤ count s xs
        → count s (if is_active_entry o' then o'.request.symbol ∷ xs' else xs')
          ≤ count s (if is_active_entry o then o.request.symbol ∷ xs else xs)
    count-entry s o o' xs xs' a h = elim (Bool-cases (is_active_entry o')) [
      | inl active ↦ rw (active, active_before o o' a active, a.same_request) (omega arith)
      | inr idle ↦ rw idle (elim (Bool-cases (is_active_entry o)) [
        | inl was ↦ rw was (omega arith)
        | inr not ↦ rw not h
      ])
    ]

    pub Evolves-count :
        (s : Symbol) (d d' : Dict (ManagedOrder F))
        → Evolves d d'
        → count s (active_entry_symbols d') ≤ count s (active_entry_symbols d)
    unfolding active_entry_symbols
    Evolves-count s [] [] h = omega arith
    Evolves-count s ((x, o) ∷ d) ((y, o') ∷ d') (_, a, h) =
        count-entry s o o' (active_entry_symbols d) (active_entry_symbols d') a
          (Evolves-count s d d' h)
    Evolves-count s [] (_ ∷ _) h = absurd h
    Evolves-count s (_ ∷ _) [] h = absurd h

    -- A method that lets the orders evolve keeps the invariant.
    pub Follows-IsValid : (om om' : OrderManager F) → Follows om om' → IsValid om → IsValid om'
    unfolding reserved_notional
    Follows-IsValid om om' (cap, h) v = record {
      sound = Evolves-AllSound _ _ h v.sound;
      within =
          rw cap
            (le_trans _ _ _ (Evolves-sum_notional _ _ _ _ h v.sound (le_refl (lit 0))) v.within);
      single = λ s. omega (arith, Evolves-count s _ _ h, v.single s);
    }
