-- ===== src/Prelude/Sort.antt =====
-- Stable sorting by a number, and the first element with the greatest one.
use Prim.Native.Nat.{ℕ}
use mathlib.Core.Path.{◌≡◌, refl}
use mathlib.Core.Bool.{Bool}
use mathlib.Core.Option.{Option, none, some}
use mathlib.Core.List.{List, [], ◌∷◌}
use native.Mathlib.Omega.{arith}
use stock_platform.Prelude.Tests.{ltb, if◌then◌else◌, Bool-cases}
use stock_platform.Prelude.Lists.{exists}

module _ {ℓ} {A : Type ℓ} (on : A → ℕ) where
  abbrev pub insert_on : A → List A → List A
  insert_on x [] = x ∷ []
  insert_on x (y ∷ ys) =
      let rest = insert_on x ys in if ltb (on y) (on x) then y ∷ rest else x ∷ y ∷ ys

  -- `sorted(xs, key=on)`
  abbrev pub sort_on : List A → List A
  sort_on [] = []
  sort_on (x ∷ xs) = insert_on x (sort_on xs)

  abbrev pub greater_on : A → Option A → Option A
  greater_on x none = some x
  greater_on x (some y) = some (if ltb (on x) (on y) then y else x)

  -- `ORDER BY on DESC LIMIT 1` of the rows that pass.
  abbrev pub last_on : (A → Bool) → List A → Option A
  last_on p [] = none
  last_on p (x ∷ xs) = let rest = last_on p xs in if p x then greater_on x rest else rest

  pub exists-insert_on :
      (p : A → Bool) (x : A) (xs : List A) → exists p (insert_on x xs) ≡ exists p (x ∷ xs)
  exists-insert_on p x [] = refl
  exists-insert_on p x (y ∷ ys) =
      ground (arith, exists-insert_on p x ys, Bool-cases (p x), Bool-cases (p y))

  pub exists-sort_on : (p : A → Bool) (xs : List A) → exists p (sort_on xs) ≡ exists p xs
  exists-sort_on p [] = refl
  exists-sort_on p (x ∷ xs) = ground (arith, exists-insert_on p x (sort_on xs), exists-sort_on p xs)
