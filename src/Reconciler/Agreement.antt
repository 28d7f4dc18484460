-- ===== src/Reconciler/Agreement.antt =====
-- execution/reconciler.py: what a reconciliation without issues means.
use liquidity_bot.Prelude.{
  ◌^◌, ◌≡◌, refl, ap, sym, ◌∙◌, ◌≢◌, inl, inr, Bool, true, false, some, List, [], ◌∷◌, ◌++◌, arith,
  Bool-cases, Option-cases, Dict, keys, has_key, get_or, contains, ◌==◌, ==_iff, ◌||◌,
}
use liquidity_bot.Float.{Float, IsOrdered, lit, abs}
use liquidity_bot.Float.Order
use liquidity_bot.Models.{Symbol, Position}
use liquidity_bot.Reconciler.{
  Issue, BrokerReadView, is_empty, absent_in, local_qty, mismatch, mismatches, compare_positions,
  reconcile,
}

contains-append :
    (s : Symbol) (xs ys : List Symbol) → contains s (xs ++ ys) ≡ (contains s xs || contains s ys)
contains-append s [] ys = refl
contains-append s (x ∷ xs) ys = ground (arith, contains-append s xs ys)

module _ {ℓ} {V : Type ℓ} where
  contains-keys : (s : Symbol) (d : Dict V) → contains s (keys d) ≡ has_key s d
  contains-keys s [] = refl
  contains-keys s (e ∷ d) = ground (arith, contains-keys s d)

  contains-absent_in :
      (s : Symbol) (d : Dict V) (ss : List Symbol)
      → has_key s d ≡ false
      → contains s (absent_in d ss) ≡ contains s ss
  unfolding absent_in
  contains-absent_in s d [] h = refl
  contains-absent_in s d (x ∷ ss) h =
      let same : (s == x) ≡ true → has_key x d ≡ has_key s d =
        λ e. ap (λ k. has_key k d) (sym ((==_iff s x).0 e)) in
      let rest = contains-absent_in s d ss h in
      elim (Bool-cases (has_key x d)) [
        | inl present ↦ rw present (ground (arith, same))
        | inr absent ↦ rw absent (ap (λ b. s == x || b) rest)
      ]

  get_or-absent : (s : Symbol) (v : V) (d : Dict V) → has_key s d ≡ false → get_or s v d ≡ v
  get_or-absent s v d h = ground arith

module _ {F : Type 0} ⦃f : Float F⦄ where
  mismatches-none :
      (local broker : Dict F) (ss : List Symbol) (s : Symbol)
      → mismatches local broker ss ≡ []
      → contains s ss ≡ true
      → mismatch local broker s ≡ false
  unfolding mismatches
  mismatches-none local broker [] s h c = cc
  mismatches-none local broker (x ∷ ss) s h c =
      let same : (s == x) ≡ true → mismatch local broker s ≡ mismatch local broker x =
        λ e. ap (mismatch local broker) ((==_iff s x).0 e) in
      ground (arith, same, mismatches-none local broker ss s)

  none-mismatches :
      (local broker : Dict F) (ss : List Symbol)
      → ((s : Symbol) → mismatch local broker s ≡ false)
      → mismatches local broker ss ≡ []
  unfolding mismatches
  none-mismatches local broker [] h = refl
  none-mismatches local broker (x ∷ ss) h = rw (h x) (none-mismatches local broker ss h)

  contains-all :
      (local broker : Dict F) (s : Symbol)
      → contains s (keys local ++ absent_in local (keys broker))
        ≡ (has_key s local || has_key s broker)
  contains-all local broker s = elim (Bool-cases (has_key s local)) [
    | inl here ↦ contains-append s (keys local) _ ∙ rw (contains-keys s local, here) refl
    | inr there ↦
        contains-append s (keys local) _
        ∙ rw (contains-absent_in s local (keys broker) there, contains-keys s local, there)
            (contains-keys s broker)
  ]

  module _ (laws : IsOrdered F) where
    mismatch-absent :
        (local broker : Dict F) (s : Symbol)
        → has_key s local ≡ false
        → has_key s broker ≡ false
        → mismatch local broker s ≡ false
    unfolding mismatch abs
    mismatch-absent local broker s h k =
        let zero = laws.sub-self (lit 0) in
        let still = Order.not_lt_of_le laws _ _ (laws.le_refl (lit 0)) in
        let small =
          Order.not_lt_of_le laws _ _
            (laws.ratio_mono 0 1 1 (10 ^ 6) (omega arith) (omega arith) (omega arith)) in
        rw (get_or-absent s (lit 0) local h, get_or-absent s (lit 0) broker k, zero, still, small)
          refl

    compare_positions-none :
        (account : Bool) (local broker : Dict F)
        → compare_positions account local broker ≡ []
        → (account ≡ true) × ((s : Symbol) → mismatch local broker s ≡ false)
    unfolding compare_positions
    compare_positions-none false local broker h = cc
    compare_positions-none true local broker h = (
      refl,
      λ s.
          let all = contains-all local broker s in
          let among =
            mismatches-none local broker (keys local ++ absent_in local (keys broker)) s h in
          elim (Bool-cases (has_key s local)) [
            | inl here ↦ among (all ∙ rw here refl)
            | inr there ↦ elim (Bool-cases (has_key s broker)) [
              | inl held ↦ among (all ∙ rw (there, held) refl)
              | inr unheld ↦ mismatch-absent local broker s there unheld
            ]
          ],
    )

    none-compare_positions :
        (local broker : Dict F)
        → ((s : Symbol) → mismatch local broker s ≡ false)
        → compare_positions true local broker ≡ []
    unfolding compare_positions
    none-compare_positions local broker h = none-mismatches local broker _ h

    failed : false ≢ true
    failed e = cc

    is_empty-nil : (is : List Issue) → is_empty is ≡ true → is ≡ []
    is_empty-nil [] h = refl
    is_empty-nil (i ∷ is) h = cc

    -- A reconciliation is ok exactly if both reads of the broker succeed, its account is in order, and
    -- at every symbol, held on either side or not, the quantities differ by at most 1e-6.
    pub reconcile_iff :
        (local : Dict (Position F)) (b : BrokerReadView F)
        → ((reconcile local b).ok ≡ true
            → (broker : Dict F) × (b.read_account_ok ≡ some true)
              × (b.read_positions ≡ some broker)
              × ((s : Symbol) → mismatch (local_qty local) broker s ≡ false))
          × ((broker : Dict F)
              → b.read_account_ok ≡ some true
              → b.read_positions ≡ some broker
              → ((s : Symbol) → mismatch (local_qty local) broker s ≡ false)
              → reconcile local b ≡ record { ok = true; issues = [] })
    unfolding reconcile
    reconcile_iff local b = (
      λ h. elim (Option-cases b.read_account_ok) [
        | inl raised ↦ absurd (failed (rw raised at h))
        | inr (account, e) ↦ elim (Option-cases b.read_positions) [
          | inl raised ↦ absurd (failed (rw (e, raised) at h))
          | inr (broker, k) ↦
              let (ok, agree) =
                compare_positions-none account (local_qty local) broker
                  (is_empty-nil _ (rw (e, k) at h)) in
              (broker, e ∙ ap some ok, k, agree)
        ]
      ],
      λ broker account positions agree.
          rw (account, positions, none-compare_positions (local_qty local) broker agree) refl,
    )
