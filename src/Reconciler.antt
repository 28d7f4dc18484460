-- ===== src/Reconciler.antt =====
-- execution/reconciler.py: the local positions against the broker's. The broker's two reads are
-- arguments: `none` is a read that raises. The loop over the union of two sets has no order of its
-- own; here the local symbols come first.
pub mod Agreement
mod Tests
use liquidity_bot.Prelude.{
  ℕ, ◌^◌, Bool, true, false, not, Option, none, some, List, [], ◌∷◌, ◌++◌, if◌then◌else◌, Dict,
  keys, has_key, get_or,
}
use liquidity_bot.Float.{Float, ◌⊖◌, lit, ratio, lt, abs}
use liquidity_bot.Models.{Symbol, Position, signed}

pub data Issue : Type 0 where
  account_state_unknown broker_read_failed : Issue
  position_mismatch : Symbol → Issue

pub record BrokerReadView (F : Type 0) : Type 0 where
  pub read_account_ok : Option Bool
  pub read_positions : Option (Dict F)

pub record ReconcileResult : Type 0 where
  pub ok : Bool
  pub issues : List Issue

abbrev pub is_empty : List Issue → Bool
is_empty [] = true
is_empty (_ ∷ _) = false

-- the symbols of the second list that are no keys of the dictionary
unfoldable pub absent_in {ℓ} : {V : Type ℓ} → Dict V → List Symbol → List Symbol
absent_in d [] = []
absent_in d (s ∷ ss) = let rest = absent_in d ss in if has_key s d then rest else s ∷ rest

module _ {F : Type 0} ⦃f : Float F⦄ where
  unfoldable pub local_qty : Dict (Position F) → Dict F
  local_qty [] = []
  local_qty ((s, p) ∷ d) = (s, signed p.side p.quantity) ∷ local_qty d

  -- `abs(lq - bq) > 1e-6`
  unfoldable pub mismatch : Dict F → Dict F → Symbol → Bool
  mismatch local broker s =
      lt (ratio 1 (10 ^ 6)) (abs (get_or s (lit 0) local ⊖ get_or s (lit 0) broker))

  unfoldable pub mismatches : Dict F → Dict F → List Symbol → List Issue
  mismatches local broker [] = []
  mismatches local broker (s ∷ ss) =
      let rest = mismatches local broker ss in
      if mismatch local broker s then position_mismatch s ∷ rest else rest

  -- the issues of the account and of the positions that were read
  unfoldable pub compare_positions : Bool → Dict F → Dict F → List Issue
  compare_positions account_ok local broker =
      (if account_ok then [] else account_state_unknown ∷ [])
      ++ mismatches local broker (keys local ++ absent_in local (keys broker))

  unfoldable pub reconcile : Dict (Position F) → BrokerReadView F → ReconcileResult
  reconcile local_positions b = answer b.read_account_ok b.read_positions
    where
      answer : Option Bool → Option (Dict F) → ReconcileResult
      answer (some account_ok) (some broker) =
          let issues = compare_positions account_ok (local_qty local_positions) broker in
          record { ok = is_empty issues; issues = issues }
      answer _ _ = record { ok = false; issues = broker_read_failed ∷ [] }
