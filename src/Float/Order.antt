-- ===== src/Float/Order.antt =====
-- Consequences of `IsOrdered`: the two orders, `max`, `min` and `abs`, and the sign of results.
use liquidity_bot.Prelude.{◌≡◌, true, false, arith, ◌^◌}
use liquidity_bot.Float.{
  Float, IsOrdered, ◌⊕◌, ◌⊖◌, ◌⊗◌, ◌⊘◌, lit, ratio, lt, ◌≼◌, ◌≺◌, max, min, abs,
}

module _ {F : Type 0} ⦃f : Float F⦄ (laws : IsOrdered F) where
  open laws use {
    le_refl, le_trans, le_total, lt-eq-not-le, add_comm, add-zero, add_mono, sub_mono, sub_anti,
    sub-self, sub-zero, mul_mono, mul_comm, mul-zero, mul-one, div_mono, div_self, zero-div,
    tiny_pos, ratio_mono,
  }

  pub le_of_lt : (x y : F) → x ≺ y → x ≼ y
  le_of_lt x y h = ground (arith, lt-eq-not-le x y, le_total x y)

  pub le_of_not_lt : (x y : F) → lt x y ≡ false → y ≼ x
  le_of_not_lt x y h = ground (arith, lt-eq-not-le x y)

  pub not_lt_of_le : (x y : F) → y ≼ x → lt x y ≡ false
  not_lt_of_le x y h = ground (arith, lt-eq-not-le x y)

  pub lt_of_lt_of_le : (x y z : F) → x ≺ y → y ≼ z → x ≺ z
  lt_of_lt_of_le x y z h k = ground (arith, lt-eq-not-le x y, lt-eq-not-le x z, le_trans y z x k)

  pub le-max_left : (x y : F) → x ≼ max x y
  unfolding max
  le-max_left x y = ground (arith, le_of_lt x y, le_refl x)

  pub le-max_right : (x y : F) → y ≼ max x y
  unfolding max
  le-max_right x y = ground (arith, le_of_not_lt x y, le_refl y)

  pub max-le : (x y z : F) → x ≼ z → y ≼ z → max x y ≼ z
  unfolding max
  max-le x y z h k = ground arith

  pub min-le_left : (x y : F) → min x y ≼ x
  unfolding min
  min-le_left x y = ground (arith, le_of_lt y x, le_refl x)

  pub min-le_right : (x y : F) → min x y ≼ y
  unfolding min
  min-le_right x y = ground (arith, le_of_not_lt y x, le_refl y)

  pub le-min : (x y z : F) → z ≼ x → z ≼ y → z ≼ min x y
  unfolding min
  le-min x y z h k = ground arith

  pub abs_nonneg : (x : F) → lit 0 ≼ abs x
  unfolding abs
  abs_nonneg x = ground (
    arith,
    le_of_not_lt x (lit 0),
    le_of_lt x (lit 0),
    sub_anti x (lit 0) (lit 0),
    sub-zero (lit 0),
  )

  pub zero-le-one : f.le (f.ratio 0 1) (f.ratio 1 1) ≡ true
  zero-le-one = ratio_mono 0 1 1 1 (omega arith) (omega arith) (omega arith)

  pub add_mono_right : (x y z : F) → x ≼ y → z ⊕ x ≼ z ⊕ y
  add_mono_right x y z h = ground (arith, add_mono x y z, add_comm x z, add_comm y z)

  pub add_mono_both : (x y z w : F) → x ≼ y → z ≼ w → x ⊕ z ≼ y ⊕ w
  add_mono_both x y z w h k = le_trans _ _ _ (add_mono x y z h) (add_mono_right z w y k)

  pub le-add_nonneg : (x y : F) → lit 0 ≼ y → x ≼ x ⊕ y
  le-add_nonneg x y h = ground (arith, add_mono_right (lit 0) y x h, add-zero x)

  pub add_nonneg : (x y : F) → lit 0 ≼ x → lit 0 ≼ y → lit 0 ≼ x ⊕ y
  add_nonneg x y h k = le_trans _ _ _ h (le-add_nonneg x y k)

  pub sub-le_nonneg : (x y : F) → lit 0 ≼ y → x ⊖ y ≼ x
  sub-le_nonneg x y h = ground (arith, sub_anti (lit 0) y x h, sub-zero x)

  pub sub_nonneg : (x y : F) → y ≼ x → lit 0 ≼ x ⊖ y
  sub_nonneg x y h = ground (arith, sub_mono y x y h, sub-self y)

  pub zero-mul : (x : F) → lit 0 ⊗ x ≡ lit 0
  zero-mul x = ground (arith, mul_comm (lit 0) x, mul-zero x)

  pub mul_nonneg : (x y : F) → lit 0 ≼ x → lit 0 ≼ y → lit 0 ≼ x ⊗ y
  mul_nonneg x y h k = ground (arith, mul_mono (lit 0) x y k h, zero-mul y)

  pub mul_mono_right : (x y z : F) → lit 0 ≼ z → x ≼ y → z ⊗ x ≼ z ⊗ y
  mul_mono_right x y z h k = ground (arith, mul_mono x y z h k, mul_comm x z, mul_comm y z)

  -- A share of at most one of a positive amount is at most the amount.
  pub mul-le : (x y : F) → lit 0 ≼ x → y ≼ lit 1 → x ⊗ y ≼ x
  mul-le x y h k = ground (arith, mul_mono_right y (lit 1) x h k, mul-one x)

  pub div_nonneg : (x y : F) → lit 0 ≼ x → lit 0 ≺ y → lit 0 ≼ x ⊘ y
  div_nonneg x y h k = ground (arith, div_mono (lit 0) x y k h, zero-div y)

  pub div-le-one : (x y : F) → x ≼ y → lit 0 ≺ y → x ⊘ y ≼ lit 1
  div-le-one x y h k = ground (arith, div_mono x y y k h, div_self y k)

  -- A divisor guarded as `max(x, 1e-12)` is positive.
  pub guarded_pos : (x : F) → lit 0 ≺ max x (ratio 1 (10 ^ 12))
  guarded_pos x = lt_of_lt_of_le _ _ _ tiny_pos (le-max_right x _)
