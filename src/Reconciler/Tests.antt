-- ===== src/Reconciler/Tests.antt =====
-- A long position that the broker knows, and the reconciliation of it.
use liquidity_bot.Prelude.{◌≡◌, refl, true, false, some, [], ◌∷◌, Dict}
use liquidity_bot.Float.{abs}
use liquidity_bot.Float.Fixed.{ℤ, num, fixed, fixed-IsOrdered}
use liquidity_bot.Models.{Position, Symbol, signed}
use liquidity_bot.Models.Samples.{position}
use liquidity_bot.Reconciler.{
  BrokerReadView, absent_in, local_qty, mismatch, mismatches, compare_positions, reconcile,
}
use liquidity_bot.Reconciler.Agreement.{reconcile_iff}

abbrev held : Dict (Position ℤ)
held = (1, position) ∷ []

abbrev view : BrokerReadView ℤ
view = record { read_account_ok = some true; read_positions = some ((1, num 100 1) ∷ []) }

agrees : (reconcile held view).ok ≡ true
unfolding reconcile compare_positions mismatches mismatch absent_in local_qty signed abs
agrees = refl

reconcile_iff_example :
    ((reconcile held view).ok ≡ true
      → (broker : Dict ℤ) × (some true ≡ some true)
        × (view.read_positions ≡ some broker)
        × ((s : Symbol) → mismatch (local_qty held) broker s ≡ false))
    × ((broker : Dict ℤ)
        → view.read_account_ok ≡ some true
        → view.read_positions ≡ some broker
        → ((s : Symbol) → mismatch (local_qty held) broker s ≡ false)
        → reconcile held view ≡ record { ok = true; issues = [] })
reconcile_iff_example = reconcile_iff fixed-IsOrdered held view
