-- ===== src/Float/Fixed.antt =====
-- The laws of `Float` can be met: decimal numbers with twelve digits after the point, as integers
-- in units of 1e-12. A product or quotient that does not fit is rounded toward zero.
use native.Mathlib.Nat
use native.Mathlib.Nat.{
  mul-le-mul, le-div_iff_mul-le, le_refl, le_of_mul-le-mul_right, mul-div_right,
}
use liquidity_bot.Prelude.{
  ℕ, zero, suc, ◌+◌, ◌-◌, ◌*◌, ◌/◌, ◌^◌, ◌≤◌, ◌<◌, ◌≡◌, refl, ap, true, arith, ltb, leb,
  if◌then◌else◌,
}
use liquidity_bot.Float.{Float, IsOrdered, IsExact, ◌≼◌}

pub data ℤ : Type 0 where
  pos : ℕ → ℤ
  negsuc : ℕ → ℤ

abbrev pos_part : ℤ → ℕ
pos_part (pos n) = n
pos_part (negsuc n) = 0

abbrev neg_part : ℤ → ℕ
neg_part (pos n) = 0
neg_part (negsuc n) = suc n

abbrev sub_ℕ : ℕ → ℕ → ℤ
sub_ℕ a b = if leb b a then pos (a - b) else negsuc (b - a - 1)

abbrev pub unit : ℕ
unit = 10 ^ 12

abbrev negate : ℕ → ℤ
negate zero = pos 0
negate (suc n) = negsuc n

abbrev mul : ℤ → ℤ → ℤ
mul (pos a) (pos b) = pos (a * b / unit)
mul (pos a) (negsuc b) = negate (a * suc b / unit)
mul (negsuc a) (pos b) = negate (suc a * b / unit)
mul (negsuc a) (negsuc b) = pos (suc a * suc b / unit)

abbrev div : ℤ → ℤ → ℤ
div (pos a) (pos b) = pos (a * unit / b)
div (pos a) (negsuc b) = negate (a * unit / suc b)
div (negsuc a) (pos b) = negate (suc a * unit / b)
div (negsuc a) (negsuc b) = pos (suc a * unit / suc b)

abbrev trunc : ℤ → ℤ
trunc (pos a) = pos (a / unit * unit)
trunc (negsuc a) = negate (suc a / unit * unit)

instance abbrev pub fixed : Float ℤ
fixed = record {
  add = λ a b. sub_ℕ (pos_part a + pos_part b) (neg_part a + neg_part b);
  sub = λ a b. sub_ℕ (pos_part a + neg_part b) (neg_part a + pos_part b);
  mul = mul;
  div = div;
  le = λ a b. leb (pos_part a + neg_part b) (pos_part b + neg_part a);
  lt = λ a b. ltb (pos_part a + neg_part b) (pos_part b + neg_part a);
  ratio = λ n d. pos (n * unit / d);
  trunc = trunc;
  inf = pos (10 ^ 60);
}

-- `n / d` in decimal, for the examples.
abbrev pub num : ℕ → ℕ → ℤ
num n d = pos (n * unit / d)

div_mono_num : (a b c : ℕ) → a ≤ b → a * unit / c ≤ b * unit / c
div_mono_num a b zero h = omega arith
div_mono_num a b (suc c) h = grind arith

ratio_mono : (a b c d : ℕ) → 0 < b → 0 < d → a * d ≤ c * b → a * unit / b ≤ c * unit / d
ratio_mono a b c d p q h =
    let e : a * unit / b * b ≤ a * unit = (le-div_iff_mul-le p).0 (le_refl _) in
    let scaled : a * d * unit ≤ c * b * unit = omega arith in
    let whole : a * unit / b * b * d ≤ a * unit * d = mul-le-mul e (le_refl d) in
    (le-div_iff_mul-le q).1 (le_of_mul-le-mul_right {k = b} (omega arith) p)

mul_mono_num : (a b c : ℕ) → a ≤ b → a * c / unit ≤ b * c / unit
mul_mono_num a b c h = omega (arith, mul-le-mul h (le_refl c))

negate_parts : (n : ℕ) → (pos_part (negate n) ≡ 0) × (neg_part (negate n) ≡ n)
negate_parts zero = (refl, refl)
negate_parts (suc n) = (refl, refl)

le_pos : (a b : ℕ) → a ≤ b → pos a ≼ pos b
le_pos a b h = ground arith

le_negate : (a b : ℕ) → a ≤ b → negate b ≼ negate a
le_negate a b h = ground (arith, negate_parts a, negate_parts b)

negate-le_pos : (a b : ℕ) → negate a ≼ pos b
negate-le_pos a b = ground (arith, negate_parts a)

mul_mono : (x y z : ℤ) → pos 0 ≼ z → x ≼ y → mul x z ≼ mul y z
mul_mono (pos a) (pos b) (pos c) p h = le_pos _ _ (mul_mono_num a b c (ground arith))
mul_mono (pos a) (negsuc b) (pos c) p h = ground arith
mul_mono (negsuc a) (pos b) (pos c) p h = negate-le_pos _ _
mul_mono (negsuc a) (negsuc b) (pos c) p h =
    le_negate _ _ (mul_mono_num (suc b) (suc a) c (ground arith))
mul_mono _ _ (negsuc c) p h = ground arith

div_mono : (x y z : ℤ) → fixed.lt (pos 0) z ≡ true → x ≼ y → div x z ≼ div y z
div_mono (pos a) (pos b) (pos c) p h = le_pos _ _ (div_mono_num a b c (ground arith))
div_mono (pos a) (negsuc b) (pos c) p h = ground arith
div_mono (negsuc a) (pos b) (pos c) p h = negate-le_pos _ _
div_mono (negsuc a) (negsuc b) (pos c) p h =
    le_negate _ _ (div_mono_num (suc b) (suc a) c (ground arith))
div_mono _ _ (negsuc c) p h = ground arith

mul_comm : (x y : ℤ) → mul x y ≡ mul y x
mul_comm (pos a) (pos b) = rw (Nat.mul_comm a b)
mul_comm (pos a) (negsuc b) = rw (Nat.mul_comm a (suc b))
mul_comm (negsuc a) (pos b) = rw (Nat.mul_comm (suc a) b)
mul_comm (negsuc a) (negsuc b) = rw (Nat.mul_comm (suc a) (suc b))

mul-zero : (x : ℤ) → mul x (pos 0) ≡ pos 0
mul-zero (pos a) = ap pos (omega arith)
mul-zero (negsuc a) = let e : suc a * 0 / unit ≡ 0 = omega arith in rw e

mul-one : (x : ℤ) → mul x (pos unit) ≡ x
mul-one (pos a) = ap pos (omega arith)
mul-one (negsuc a) = let e : suc a * unit / unit ≡ suc a = omega arith in rw e

div_self : (x : ℤ) → fixed.lt (pos 0) x ≡ true → div x x ≡ pos unit
div_self (pos a) h = ap pos (mul-div_right unit (ground arith))
div_self (negsuc a) h = ground arith

zero-div : (x : ℤ) → div (pos 0) x ≡ pos 0
zero-div (pos b) = rw (Nat.zero-div b)
zero-div (negsuc b) = rw (Nat.zero-div (suc b))

trunc_bounds : (x : ℤ) → pos 0 ≼ x → (pos 0 ≼ trunc x) × (trunc x ≼ x)
trunc_bounds (pos a) h = ground arith
trunc_bounds (negsuc a) h = ground arith

pub fixed-IsOrdered : IsOrdered ℤ
fixed-IsOrdered = record {
  le_refl = λ x. ground arith;
  le_trans = λ x y z h k. ground arith;
  le_total = λ x y. ground arith;
  lt-eq-not-le = λ x y. ground arith;
  add_comm = λ x y. ground arith;
  add-zero = λ x. ground arith;
  add_mono = λ x y z h. ground arith;
  sub-zero = λ x. ground arith;
  sub-self = λ x. ground arith;
  sub_mono = λ x y z h. ground arith;
  sub_anti = λ x y z h. ground arith;
  mul_comm = mul_comm;
  mul-zero = mul-zero;
  mul-one = mul-one;
  mul_mono = mul_mono;
  div_self = div_self;
  zero-div = zero-div;
  div_mono = div_mono;
  ratio_mono = λ a b c d p q h. le_pos _ _ (ratio_mono a b c d p q h);
  tiny_pos = refl;
  trunc_bounds = trunc_bounds;
}

pub fixed-IsExact : IsExact ℤ
fixed-IsExact = record {
  add_assoc = λ x y z. ground arith;
  add-sub = λ x y. ground arith;
  sub-add = λ x y. ground arith;
}
