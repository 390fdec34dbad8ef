-- ===== src/Float/Defs.antt =====
-- The operations of `float`, and the built-in functions `max`, `min`, `abs`, `sum` and `/` on it.
use stock_platform.Prelude.{ℕ, ◌≡◌, Bool, false, Option, List, [], ◌∷◌, if◌then◌else◌}
use stock_platform.Prelude.Int.{ℤ}
use stock_platform.Prelude.Result.{Result, ok, err, zero_division}

-- `literal m k` is the decimal constant m / 10^k. `int` and `floor` are `none` where Python raises.
pub record Float (F : Type 0) : Type 0 where
  pub literal : ℕ → ℕ → F
  pub of_ℕ : ℕ → F
  pub add : F → F → F
  pub sub : F → F → F
  pub mul : F → F → F
  pub div : F → F → F
  pub neg : F → F
  pub lt : F → F → Bool
  pub le : F → F → Bool
  pub is_finite : F → Bool
  pub int : F → Option ℤ
  pub floor : F → Option ℤ
  pub round : F → ℕ → F

module _ {F : Type 0} ⦃fl : Float F⦄ where
  infixl 65 ◌⊕◌ ◌⊖◌
  infixl 70 ◌⊗◌
  abbrev pub ◌⊕◌ : F → F → F
  ◌⊕◌ = fl.add

  abbrev pub ◌⊖◌ : F → F → F
  ◌⊖◌ = fl.sub

  abbrev pub ◌⊗◌ : F → F → F
  ◌⊗◌ = fl.mul

  infix 50 ◌<?◌ ◌≤?◌
  abbrev pub ◌<?◌ : F → F → Bool
  ◌<?◌ = fl.lt

  abbrev pub ◌≤?◌ : F → F → Bool
  ◌≤?◌ = fl.le

  abbrev pub nought : F
  nought = fl.literal 0 0

  abbrev pub unit : F
  unit = fl.literal 1 0

  -- `x == 0.0`, false for a NaN
  abbrev pub is_zero : F → Bool
  is_zero x = if x ≤? nought then nought ≤? x else false

  -- `a / b`, which raises where `b` is zero
  unfoldable pub divide : F → F → Result F
  divide a b = if is_zero b then err zero_division else ok (fl.div a b)

  -- `max(a, b)` and `min(a, b)` keep `a` unless `b` beats it.
  abbrev pub max : F → F → F
  max a b = if a <? b then b else a

  abbrev pub min : F → F → F
  min a b = if b <? a then b else a

  abbrev pub abs : F → F
  abs x = if x <? nought then fl.neg x else x

  -- `sum(xs)` adds from the left, starting at 0.
  abbrev pub sum_from : F → List F → F
  sum_from acc [] = acc
  sum_from acc (x ∷ xs) = sum_from (acc ⊕ x) xs

  abbrev pub sum : List F → F
  sum = sum_from nought

  -- `x` is not below zero: it is zero, positive or NaN.
  abbrev pub NotNeg : F → Type 0
  NotNeg x = (x <? nought) ≡ false

-- Facts of IEEE 754, for all values, NaN and the infinities included: a difference is not below
-- zero unless the comparison says so, a sum of two values that are not below zero is not below
-- zero, and nothing is below itself.
pub record IsIeee (F : Type 0) ⦃fl : Float F⦄ : Type 0 where
  pub sub_not_neg : (a b : F) → fl.lt b a ≡ false → NotNeg (fl.sub b a)
  pub add_not_neg : (a b : F) → NotNeg a → NotNeg b → NotNeg (fl.add a b)
  pub lt_irrefl : (a : F) → fl.lt a a ≡ false
