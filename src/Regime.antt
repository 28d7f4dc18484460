-- ===== src/Regime.antt =====
-- ml/regime.py: the regime rules and the anomaly detector. numpy's median is an argument; a
-- `defaultdict` of histories is a function, and a deque the list of its values, oldest first.
pub mod Windows
use liquidity_bot.Prelude.{
  ℕ, ◌+◌, ◌^◌, ◌≡◌, refl, Bool, true, false, not, ◌&&◌, List, [], ◌∷◌, ◌++◌, map, leb, ltb, ◌==◌,
  if◌then◌else◌, length,
}
use liquidity_bot.Float.{Float, ◌⊕◌, ◌⊖◌, ◌⊗◌, ◌⊘◌, lit, ratio, lt, abs}
use liquidity_bot.Models.{Symbol}
use liquidity_bot.Models.Features.{FeatureVector}

-- `REGIMES`
pub data Regime : Type 0 where
  quiet normal volatile trending : Regime

-- `_FIELDS`
pub data Field : Type 0 where
  residual_z spread_bps flow_imbalance volume_z realized_vol_bps residual_velocity microprice_bps :
      Field

abbrev pub number : Field → ℕ
number residual_z = 0
number spread_bps = 1
number flow_imbalance = 2
number volume_z = 3
number realized_vol_bps = 4
number residual_velocity = 5
number microprice_bps = 6

abbrev pub fields : List Field
fields =
    residual_z ∷ spread_bps ∷ flow_imbalance ∷ volume_z ∷ realized_vol_bps ∷ residual_velocity
    ∷ microprice_bps ∷ []

pub record AnomalyDetector (F : Type 0) : Type 0 where
  pub z_max : F
  pub window : ℕ
  pub min_obs : ℕ
  pub hist : Symbol → Field → List F

abbrev pub tail {ℓ} : {A : Type ℓ} → List A → List A
tail [] = []
tail (_ ∷ xs) = xs

-- `h.append(v)` on a deque of at most `window` values
unfoldable pub push {ℓ} : {A : Type ℓ} → ℕ → A → List A → List A
push window v h = let h' = h ++ (v ∷ []) in if ltb window (length h') then tail h' else h'

module _ {F : Type 0} ⦃f : Float F⦄ where
  unfoldable pub classify_regime : FeatureVector F → F → Regime
  unfolding abs
  classify_regime v breadth =
      if v.vol_regime == 2
      then volatile
      else if lt (lit 30) (abs v.vwap_distance_bps) && lt (ratio 6 10) (abs breadth)
      then trending
      else if v.vol_regime == 0
      then quiet
      else normal

  -- `getattr(f, name)`
  unfoldable pub value_of : Field → FeatureVector F → F
  value_of residual_z v = v.residual_z
  value_of spread_bps v = v.spread_bps
  value_of flow_imbalance v = v.flow_imbalance
  value_of volume_z v = v.volume_z
  value_of realized_vol_bps v = v.realized_vol_bps
  value_of residual_velocity v = v.residual_velocity
  value_of microprice_bps v = v.microprice_bps

  -- `self._hist[key] = h`
  unfoldable pub set_history : Symbol → Field → List F → AnomalyDetector F → AnomalyDetector F
  set_history s name h d = record d {
    hist = λ t other. if s == t && number name == number other then h else d.hist t other;
  }

  module _ (median : List F → F) where
    -- the test on a history that is long enough
    unfoldable pub is_outlier : F → F → List F → Bool
    unfolding abs
    is_outlier z_max v h =
        let med = median h in
        let mad = median (map (λ a. abs (a ⊖ med)) h) ⊗ ratio 14_826 10_000 ⊕ ratio 1 (10 ^ 9) in
        lt z_max (abs (v ⊖ med) ⊘ mad)

    -- one round of the loop of `check`
    unfoldable pub check_field :
        FeatureVector F → Field → AnomalyDetector F → Bool × AnomalyDetector F
    check_field v name d =
        let h = d.hist v.symbol name in
        (
          leb d.min_obs (length h) && is_outlier d.z_max (value_of name v) h,
          set_history v.symbol name (push d.window (value_of name v) h) d,
        )

    unfoldable pub check_fields :
        FeatureVector F → List Field → AnomalyDetector F → List Field × AnomalyDetector F
    check_fields v [] d = ([], d)
    check_fields v (name ∷ names) d =
        let (flag, d') = check_field v name d in
        let (flags, d'') = check_fields v names d' in (if flag then name ∷ flags else flags, d'')

    unfoldable pub check : FeatureVector F → AnomalyDetector F → List Field × AnomalyDetector F
    check v d = check_fields v fields d

    unfoldable pub check_all : List (FeatureVector F) → AnomalyDetector F → AnomalyDetector F
    check_all [] d = d
    check_all (v ∷ vs) d = check_all vs (check v d).1
