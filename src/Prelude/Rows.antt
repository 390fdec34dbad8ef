-- ===== src/Prelude/Rows.antt =====
-- Rows of a table that a test finds, and the writes to them: an update in place and two upserts.
use Prim.Native.Nat.{◌+◌, ◌≤◌}
use mathlib.Core.Path.{◌≡◌, refl, ◌∙◌}
use mathlib.Core.Logic.{inl, inr}
use mathlib.Core.Bool.{Bool, true, false}
use mathlib.Core.Option.{Option, none, some}
use mathlib.Core.List.{List, [], ◌∷◌, ◌++◌}
use native.Mathlib.Omega.{arith}
use stock_platform.Prelude.Tests.{if◌then◌else◌, Option-cases, Bool-cases}
use stock_platform.Prelude.Lists.{first, count}

-- `UPDATE … WHERE p`
abbrev pub update {ℓ} : {A : Type ℓ} → (A → Bool) → (A → A) → List A → List A
update p f [] = []
update p f (x ∷ xs) = let rest = update p f xs in if p x then f x ∷ rest else x ∷ rest

-- `INSERT … ON DUPLICATE KEY UPDATE`: the row `x` is appended, or where `p` finds rows, they are
-- changed by `f`.
abbrev pub put {ℓ} : {A : Type ℓ} → (A → Bool) → (A → A) → A → List A → List A
put p f x xs = elim (first p xs) [ none ↦ xs ++ (x ∷ []) | some _ ↦ update p f xs ]

-- Adds the row, or writes it over the one that `p` finds.
abbrev pub upsert {ℓ} : {A : Type ℓ} → (A → Bool) → A → List A → List A
upsert p x [] = x ∷ []
upsert p x (y ∷ ys) = let rest = upsert p x ys in if p y then x ∷ ys else y ∷ rest

module _ {ℓ} {A : Type ℓ} where
  abbrev pub apply : (A → A) → Option A → Option A
  apply f none = none
  apply f (some x) = some (f x)

  abbrev pub or_some : Option A → A → Option A
  or_some none x = some x
  or_some (some y) x = some y

  pub count-update :
      (q p : A → Bool) (f : A → A) (xs : List A)
      → ((x : A) → q (f x) ≡ q x)
      → count q (update p f xs) ≡ count q xs
  count-update q p f [] stable = refl
  count-update q p f (x ∷ xs) stable = ground (arith, stable x, count-update q p f xs stable)

  pub count-append-one :
      (q : A → Bool) (xs : List A) (x : A)
      → count q (xs ++ (x ∷ [])) ≡ count q xs + (if q x then 1 else 0)
  count-append-one q [] x = ground arith
  count-append-one q (y ∷ xs) x = ground (arith, count-append-one q xs x)

  pub count-first : (q : A → Bool) (xs : List A) → first q xs ≡ none → count q xs ≡ 0
  count-first q [] h = refl
  count-first q (x ∷ xs) h = ground (arith, count-first q xs)

  pub first-update :
      (p : A → Bool) (f : A → A) (xs : List A)
      → ((x : A) → p (f x) ≡ p x)
      → first p (update p f xs) ≡ apply f (first p xs)
  first-update p f [] stable = refl
  first-update p f (x ∷ xs) stable = ground (arith, stable x, first-update p f xs stable)

  -- One row written over all that `p` finds.
  pub first-overwrite :
      (p : A → Bool) (z : A) (xs : List A) {y : A}
      → first p xs ≡ some y
      → p z ≡ true
      → first p (update p (λ _. z) xs) ≡ some z
  first-overwrite p z [] e pz = cc
  first-overwrite p z (x ∷ xs) {y = y} e pz = ground (arith, e, pz, first-overwrite p z xs {y = y})

  pub first-append-one :
      (p : A → Bool) (xs : List A) (x : A)
      → first p xs ≡ none
      → p x ≡ true
      → first p (xs ++ (x ∷ [])) ≡ some x
  first-append-one p [] x h px = ground arith
  first-append-one p (y ∷ xs) x h px = ground (arith, first-append-one p xs x)

  pub first-upsert :
      (p : A → Bool) (x : A) (xs : List A) → p x ≡ true → first p (upsert p x xs) ≡ some x
  first-upsert p x [] px = ground arith
  first-upsert p x (y ∷ xs) px = ground (arith, first-upsert p x xs px)

  pub count-same : (q p : A → Bool) (xs : List A) → ((x : A) → q x ≡ p x) → count q xs ≡ count p xs
  count-same q p [] same = refl
  count-same q p (x ∷ xs) same = ground (arith, same x, count-same q p xs same)

  -- An upsert keeps a unique constraint `q`, if its row falls under `q` only as its key does.
  pub count-put :
      (q p : A → Bool) (f : A → A) (x : A) (xs : List A)
      → ((y : A) → q (f y) ≡ q y)
      → (q x ≡ true → (y : A) → q y ≡ p y)
      → count q xs ≤ 1
      → count q (put p f x xs) ≤ 1
  count-put q p f x xs stable key h = elim (Option-cases (first p xs)) [
    | inl e ↦ elim (Bool-cases (q x)) [
      | inl qx ↦
          ground (arith, e, count-append-one q xs x, count-same q p xs (key qx), count-first p xs e)
      | inr nqx ↦ ground (arith, e, count-append-one q xs x)
    ]
    | inr (y, e) ↦ ground (arith, e, count-update q p f xs stable)
  ]

  -- The row that an upsert leaves under its key.
  abbrev pub put_row : (A → A) → A → Option A → A
  put_row f x none = x
  put_row f x (some y) = f y

  pub first-put :
      (p : A → Bool) (f : A → A) (x : A) (xs : List A)
      → ((y : A) → p (f y) ≡ p y)
      → p x ≡ true
      → first p (put p f x xs) ≡ some (put_row f x (first p xs))
  first-put p f x xs stable px = elim (Option-cases (first p xs)) [
    | inl e ↦ ground (arith, e, first-append-one p xs x e px)
    | inr (y, e) ↦ ground (arith, e, first-update p f xs stable)
  ]

  update-other :
      (p q : A → Bool) (x : A) (xs : List A)
      → p x ≡ false
      → ((y : A) → q y ≡ true → p y ≡ false)
      → first p (update q (λ _. x) xs) ≡ first p xs
  update-other p q x [] px apart = refl
  update-other p q x (y ∷ xs) px apart = ground (arith, px, apart y, update-other p q x xs px apart)

  first-append_other :
      (p : A → Bool) (xs : List A) (x : A) → p x ≡ false → first p (xs ++ (x ∷ [])) ≡ first p xs
  first-append_other p [] x px = ground (arith, px)
  first-append_other p (y ∷ xs) x px = ground (arith, first-append_other p xs x px)

  first-same : (p q : A → Bool) (xs : List A) → ((y : A) → p y ≡ q y) → first p xs ≡ first q xs
  first-same p q [] same = refl
  first-same p q (y ∷ xs) same = ground (arith, same y, first-same p q xs same)

  update-same :
      (p q : A → Bool) (x : A) (xs : List A)
      → ((y : A) → p y ≡ q y)
      → update p (λ _. x) xs ≡ update q (λ _. x) xs
  update-same p q x [] same = refl
  update-same p q x (y ∷ xs) same = ground (arith, same y, update-same p q x xs same)

  -- An upsert of whole rows by a key, as a map: `q` is the key of the row, `p` that of the search.
  pub first-write :
      (p q : A → Bool) (x : A) (xs : List A)
      → q x ≡ true
      → (p x ≡ true → (y : A) → p y ≡ q y)
      → (p x ≡ false → (y : A) → q y ≡ true → p y ≡ false)
      → first p (put q (λ _. x) x xs) ≡ (if p x then some x else first p xs)
  first-write p q x xs qx same apart = elim (Bool-cases (p x)) [
    | inl px ↦ elim (Option-cases (first q xs)) [
      | inl e ↦ ground (
        arith,
        e,
        px,
        first-same p q xs (same px),
        first-append-one p xs x (first-same p q xs (same px) ∙ e) px,
      )
      | inr (y, e) ↦ ground (
        arith,
        e,
        px,
        first-overwrite p x xs {y = y} (first-same p q xs (same px) ∙ e) px,
        update-same p q x xs (same px),
      )
    ]
    | inr px ↦ elim (Option-cases (first q xs)) [
      | inl e ↦ ground (arith, e, px, first-append_other p xs x px)
      | inr (y, e) ↦ ground (arith, e, px, update-other p q x xs px (apart px))
    ]
  ]
