-- ===== src/Prelude/Result.antt =====
-- Python's exceptions as values.
use mathlib.Core.Path.{◌≡◌, refl, subst}
use mathlib.Core.Bool.{Bool, true, false}
use mathlib.Core.Logic.{◌⊎◌, inl, inr}
use mathlib.Core.List.{List, [], ◌∷◌}
use mathlib.Core.Option.{Option, none, some}

-- `ValueError`, `KeyError`, `TypeError`, `ZeroDivisionError`, the error that `int()` and `math.floor`
-- raise for a NaN or an infinity, and that of a session whose flush has failed.
pub data Error : Type 0 where
  value_error key_error type_error zero_division not_integral pending_rollback : Error

pub data Result {ℓ} (A : Type ℓ) : Type ℓ where
  ok : A → Result A
  err : Error → Result A

abbrev pub or_raise {ℓ} : {A : Type ℓ} → Option A → Error → Result A
or_raise none e = err e
or_raise (some a) e = ok a

abbrev pub is_ok {ℓ} : {A : Type ℓ} → Result A → Bool
is_ok (err e) = false
is_ok (ok a) = true

pub ok_of_is_ok {ℓ} : {A : Type ℓ} (r : Result A) → is_ok r ≡ true → (a : A) × (r ≡ ok a)
ok_of_is_ok (ok a) h = (a, refl)
ok_of_is_ok (err e) h = cc

infixl 5 ◌>>=◌
abbrev pub ◌>>=◌ {α β} : {S : Type α} {T : Type β} → Result S → (S → Result T) → Result T
err e >>= next = err e
ok a >>= next = next a

-- What a successful bind says of its two parts.
pub >>=-parts {α β} :
    {S : Type α} {T : Type β} {first : Result S} {next : S → Result T} {t : T}
    → (first >>= next) ≡ ok t
    → (s : S) × (first ≡ ok s) × (next s ≡ ok t)
>>=-parts {first = err e} h = cc
>>=-parts {first = ok s} h = (s, refl, h)

pub Result-cases {ℓ} :
    {A : Type ℓ} (r : Result A) → ((a : A) × (r ≡ ok a)) ⊎ ((e : Error) × (r ≡ err e))
Result-cases (ok a) = inl (a, refl)
Result-cases (err e) = inr (e, refl)

-- What holds of a result, if there is one.
abbrev pub Holds {ℓ} : {A : Type 0} → (A → Type ℓ) → Result A → Type ℓ
Holds P (ok a) = P a
Holds P (err e) = Unit

pub Holds-map {ℓ κ} :
    {A : Type 0} {P : A → Type ℓ} {Q : A → Type κ} (r : Result A)
    → Holds P r
    → ((a : A) → P a → Q a)
    → Holds Q r
Holds-map (ok a) h f = f a h
Holds-map (err e) h f = tt

pub Holds-bind {ℓ κ} :
    {A B : Type 0} {P : A → Type ℓ} (Q : B → Type κ) (r : Result A) (f : A → Result B)
    → Holds P r
    → ((a : A) → P a → Holds Q (f a))
    → Holds Q (r >>= f)
Holds-bind Q (ok a) f h k = k a h
Holds-bind Q (err e) f h k = tt

pub Holds-all {ℓ κ} :
    {A : Type 0} {D : Type κ} (P : D → A → Type ℓ) (r : Result A)
    → ((d : D) → Holds (P d) r)
    → Holds (λ a. (d : D) → P d a) r
Holds-all P (ok a) h = h
Holds-all P (err e) h = tt

pub Holds-true : {A : Type 0} (r : Result A) → Holds (λ _. Unit {0}) r
Holds-true (ok a) = tt
Holds-true (err e) = tt

-- A loop whose body may raise.
unfoldable pub each {ℓ κ} : {A : Type ℓ} {B : Type κ} → (A → B → Result B) → List A → B → Result B
each f [] b = ok b
each f (x ∷ xs) b = f x b >>= each f xs

-- The rule of such a loop: what every round preserves holds at the end.
pub each-Holds {ℓ κ} :
    {A : Type ℓ} {B : Type 0} (P : B → Type κ) (f : A → B → Result B) (xs : List A) (b : B)
    → P b
    → ((x : A) (b : B) → P b → Holds P (f x b))
    → Holds P (each f xs b)
unfolding each
each-Holds P f [] b h keeps = h
each-Holds P f (x ∷ xs) b h keeps =
    Holds-bind P (f x b) (each f xs) (keeps x b h) (λ b' h'. each-Holds P f xs b' h' keeps)

pub Holds-at {ℓ} : {A : Type 0} (P : A → Type ℓ) {r : Result A} {a : A} → r ≡ ok a → Holds P r → P a
Holds-at P e h = subst (Holds P) e h
