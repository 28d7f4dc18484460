-- ===== src/Prelude/Lists.antt =====
-- Lists measured by native numbers, predicates on every element, and Python's `dict` keyed by
-- numbers, in insertion order.
use Prim.Native.Nat.{ℕ, suc, ◌+◌}
use mathlib.Core.Path.{◌≡◌, refl}
use mathlib.Core.Logic.{◌≢◌}
use mathlib.Core.Bool.{Bool, false, ◌||◌}
use mathlib.Core.Option.{Option, none, some}
use mathlib.Core.List.{List, [], ◌∷◌, ◌++◌}
use native.Mathlib.Omega.{arith}
use liquidity_bot.Prelude.Tests.{◌==◌, if◌then◌else◌, is_some}

module _ {ℓ} {A : Type ℓ} where
  abbrev pub length : List A → ℕ
  length [] = 0
  length (_ ∷ xs) = suc (length xs)

  pub length-append : (xs ys : List A) → length (xs ++ ys) ≡ length xs + length ys
  length-append [] ys = omega arith
  length-append (x ∷ xs) ys = omega (arith, length-append xs ys)

  abbrev pub All {κ} : (A → Type κ) → List A → Type κ
  All P [] = Unit
  All P (x ∷ xs) = P x × All P xs

  pub All-append {κ} : (P : A → Type κ) (xs ys : List A) → All P xs → All P ys → All P (xs ++ ys)
  All-append P [] ys _ q = q
  All-append P (x ∷ xs) ys (p, ps) q = (p, All-append P xs ys ps q)

-- `x in xs`
abbrev pub contains : ℕ → List ℕ → Bool
contains x [] = false
contains x (y ∷ ys) = x == y || contains x ys

-- the items of a `dict`
abbrev pub Dict {ℓ} : Type ℓ → Type ℓ
Dict Value = List (ℕ × Value)

module _ {ℓ} {Value : Type ℓ} where
  -- `list(items)`
  abbrev pub keys : Dict Value → List ℕ
  keys [] = []
  keys (item ∷ items) = item.0 ∷ keys items

  -- `items.pop(key, None)`: no item of the key is left.
  abbrev pub erase : (key : ℕ) → (items : Dict Value) → Dict Value
  erase key [] = []
  erase key (item ∷ items) =
      let others = erase key items in if key == item.0 then others else item ∷ others

  -- `items.get(key)`
  abbrev pub lookup : (key : ℕ) → (items : Dict Value) → Option Value
  lookup key [] = none
  lookup key ((other, value) ∷ items) = if key == other then some value else lookup key items

  -- `items.get(key, default)`
  abbrev pub get_or : ℕ → Value → Dict Value → Value
  get_or key default items = elim (lookup key items) [ none ↦ default | some value ↦ value ]

  -- `key in items`
  abbrev pub has_key : ℕ → Dict Value → Bool
  has_key key items = is_some (lookup key items)

  -- `items[key] = value`: a present key keeps its place, a new one goes to the end.
  abbrev pub insert : (key : ℕ) → (value : Value) → (items : Dict Value) → Dict Value
  insert key value [] = (key, value) ∷ []
  insert key value (item ∷ items) =
      if key == item.0 then (key, value) ∷ items else item ∷ insert key value items

  pub lookup-erase_self : (key : ℕ) (items : Dict Value) → lookup key (erase key items) ≡ none
  lookup-erase_self key [] = refl
  lookup-erase_self key (item ∷ items) = ground (arith, lookup-erase_self key items)

  pub lookup-erase_ne :
      (other key : ℕ) (items : Dict Value)
      → other ≢ key
      → lookup other (erase key items) ≡ lookup other items
  lookup-erase_ne other key [] apart = refl
  lookup-erase_ne other key (item ∷ items) apart =
      ground (arith, lookup-erase_ne other key items apart)

  pub lookup-insert_ne :
      (other key : ℕ) (value : Value) (items : Dict Value)
      → other ≢ key
      → lookup other (insert key value items) ≡ lookup other items
  lookup-insert_ne other key value [] apart = ground arith
  lookup-insert_ne other key value (item ∷ items) apart =
      ground (arith, lookup-insert_ne other key value items apart)

  pub lookup-insert_self :
      (key : ℕ) (value : Value) (items : Dict Value)
      → lookup key (insert key value items) ≡ some value
  lookup-insert_self key value [] = ground arith
  lookup-insert_self key value (item ∷ items) = ground (arith, lookup-insert_self key value items)
