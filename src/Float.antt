-- ===== src/Float.antt =====
-- Python's `float`, as far as the program computes with it: the arithmetic, the orders, decimal
-- literals and truncation. The type is a parameter of the model, so no property fixes how a result
-- is rounded. `IsOrdered` lists what IEEE 754 gives for values that are not NaN, where rounding is
-- monotone and the sign of a zero does not matter; `IsExact` adds what holds where nothing is
-- rounded, such as for sums of whole share counts below 2 ^ 53.
pub mod Order
pub mod Fixed
use liquidity_bot.Prelude.{ℕ, ◌*◌, ◌^◌, ◌≤◌, ◌<◌, ◌≡◌, ◌⊎◌, Bool, true, false, not, if◌then◌else◌}

pub record Float (F : Type 0) : Type 0 where
  pub add : F → F → F
  pub sub : F → F → F
  pub mul : F → F → F
  pub div : F → F → F
  pub le : F → F → Bool
  pub lt : F → F → Bool
  -- the literal for a quotient of two numbers: `0.35` is `ratio 35 100`
  pub ratio : ℕ → ℕ → F
  -- `float(int(x))`
  pub trunc : F → F
  -- `float("inf")`, of which no law speaks
  pub inf : F

module _ {F : Type 0} ⦃f : Float F⦄ where
  infixl 65 ◌⊕◌ ◌⊖◌
  infixl 70 ◌⊗◌ ◌⊘◌
  infix 50 ◌≼◌ ◌≺◌
  abbrev pub ◌⊕◌ : F → F → F
  x ⊕ y = f.add x y

  abbrev pub ◌⊖◌ : F → F → F
  x ⊖ y = f.sub x y

  abbrev pub ◌⊗◌ : F → F → F
  x ⊗ y = f.mul x y

  abbrev pub ◌⊘◌ : F → F → F
  x ⊘ y = f.div x y

  abbrev pub ratio : ℕ → ℕ → F
  ratio n d = f.ratio n d

  abbrev pub lit : ℕ → F
  lit n = f.ratio n 1

  abbrev pub le : F → F → Bool
  le x y = f.le x y

  abbrev pub lt : F → F → Bool
  lt x y = f.lt x y

  abbrev pub trunc : F → F
  trunc x = f.trunc x

  abbrev pub ◌≼◌ : F → F → Type 0
  x ≼ y = f.le x y ≡ true

  abbrev pub ◌≺◌ : F → F → Type 0
  x ≺ y = f.lt x y ≡ true

  abbrev pub neg : F → F
  neg x = lit 0 ⊖ x

  -- Python's `max(x, y)`, `min(x, y)` and `abs(x)`: the first argument wins a tie.
  unfoldable pub max : F → F → F
  max x y = if lt x y then y else x

  unfoldable pub min : F → F → F
  min x y = if lt y x then y else x

  unfoldable pub abs : F → F
  abs x = if lt x (lit 0) then neg x else x

pub record IsOrdered (F : Type 0) ⦃f : Float F⦄ : Type 0 where
  pub le_refl : (x : F) → x ≼ x
  pub le_trans : (x y z : F) → x ≼ y → y ≼ z → x ≼ z
  pub le_total : (x y : F) → (x ≼ y) ⊎ (y ≼ x)
  pub lt-eq-not-le : (x y : F) → lt x y ≡ not (le y x)
  pub add_comm : (x y : F) → x ⊕ y ≡ y ⊕ x
  pub add-zero : (x : F) → x ⊕ lit 0 ≡ x
  pub add_mono : (x y z : F) → x ≼ y → x ⊕ z ≼ y ⊕ z
  pub sub-zero : (x : F) → x ⊖ lit 0 ≡ x
  pub sub-self : (x : F) → x ⊖ x ≡ lit 0
  pub sub_mono : (x y z : F) → x ≼ y → x ⊖ z ≼ y ⊖ z
  pub sub_anti : (x y z : F) → x ≼ y → z ⊖ y ≼ z ⊖ x
  pub mul_comm : (x y : F) → x ⊗ y ≡ y ⊗ x
  pub mul-zero : (x : F) → x ⊗ lit 0 ≡ lit 0
  pub mul-one : (x : F) → x ⊗ lit 1 ≡ x
  pub mul_mono : (x y z : F) → lit 0 ≼ z → x ≼ y → x ⊗ z ≼ y ⊗ z
  pub div_self : (x : F) → lit 0 ≺ x → x ⊘ x ≡ lit 1
  pub zero-div : (x : F) → lit 0 ⊘ x ≡ lit 0
  pub div_mono : (x y z : F) → lit 0 ≺ z → x ≼ y → x ⊘ z ≼ y ⊘ z
  pub ratio_mono :
      (a b c d : ℕ) → 0 < b → 0 < d → a * d ≤ c * b → f.le (f.ratio a b) (f.ratio c d) ≡ true
  -- the least positive literal of the program, `1e-12`
  pub tiny_pos : f.lt (f.ratio 0 1) (f.ratio 1 (10 ^ 12)) ≡ true
  pub trunc_bounds : (x : F) → lit 0 ≼ x → (lit 0 ≼ trunc x) × (trunc x ≼ x)

pub record IsExact (F : Type 0) ⦃f : Float F⦄ : Type 0 where
  pub add_assoc : (x y z : F) → x ⊕ y ⊕ z ≡ x ⊕ (y ⊕ z)
  pub add-sub : (x y : F) → x ⊕ y ⊖ y ≡ x
  pub sub-add : (x y : F) → x ⊖ y ⊕ y ≡ x
