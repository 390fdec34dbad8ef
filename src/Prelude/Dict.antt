-- ===== src/Prelude/Dict.antt =====
-- A Python dict keyed by numbers, in insertion order.
use stock_platform.Prelude.Tests.{◌==◌, if◌then◌else◌}
use stock_platform.Prelude.Lists.{elem}
use Prim.Native.Nat.{ℕ}
use mathlib.Core.Path.{◌≡◌, refl}
use mathlib.Core.Logic.{◌≢◌}
use mathlib.Core.Bool.{Bool, true, false}
use mathlib.Core.Option.{Option, none, some}
use mathlib.Core.List.{List, [], ◌∷◌}
use native.Mathlib.Omega.{arith}

abbrev pub Dict {ℓ} : Type ℓ → Type ℓ
Dict V = List (ℕ × V)

module _ {ℓ} {V : Type ℓ} where
  -- `d.get(k)`
  abbrev pub lookup : ℕ → Dict V → Option V
  lookup k [] = none
  lookup k ((j, v) ∷ d) = let rest = lookup k d in if k == j then some v else rest

  -- `d.get(k, v)`
  abbrev pub get_or : V → Option V → V
  get_or v none = v
  get_or v (some w) = w

  -- `k in d`
  abbrev pub contains : ℕ → Dict V → Bool
  contains k [] = false
  contains k ((j, v) ∷ d) = let rest = contains k d in if k == j then true else rest

  -- `d[k] = v`
  abbrev pub insert : ℕ → V → Dict V → Dict V
  insert k v [] = (k, v) ∷ []
  insert k v ((j, w) ∷ d) = let rest = insert k v d in if k == j then (k, v) ∷ d else (j, w) ∷ rest

  -- what `d.pop(k)` leaves
  abbrev pub erase : ℕ → Dict V → Dict V
  erase k [] = []
  erase k ((j, w) ∷ d) = let rest = erase k d in if k == j then d else (j, w) ∷ rest

  abbrev pub keys : Dict V → List ℕ
  keys [] = []
  keys ((j, w) ∷ d) = j ∷ keys d

  -- `{k: v for k, v in rows}`: a later row wins, at the place of the first
  abbrev pub insert_all : Dict V → Dict V → Dict V
  insert_all [] d = d
  insert_all ((k, v) ∷ rows) d = insert_all rows (insert k v d)

  abbrev pub of_rows : Dict V → Dict V
  of_rows rows = insert_all rows []

  pub lookup-insert :
      (j k : ℕ) (v : V) (d : Dict V)
      → lookup j (insert k v d) ≡ (if j == k then some v else lookup j d)
  lookup-insert j k v [] = ground arith
  lookup-insert j k v ((i, w) ∷ d) = ground (arith, lookup-insert j k v d)

  pub contains-insert :
      (j k : ℕ) (v : V) (d : Dict V)
      → contains j (insert k v d) ≡ (if j == k then true else contains j d)
  contains-insert j k v [] = ground arith
  contains-insert j k v ((i, w) ∷ d) = ground (arith, contains-insert j k v d)

  pub lookup-erase_ne : (j k : ℕ) (d : Dict V) → j ≢ k → lookup j (erase k d) ≡ lookup j d
  lookup-erase_ne j k [] h = refl
  lookup-erase_ne j k ((i, w) ∷ d) h = ground (arith, lookup-erase_ne j k d h)

  pub contains-erase_ne : (j k : ℕ) (d : Dict V) → j ≢ k → contains j (erase k d) ≡ contains j d
  contains-erase_ne j k [] h = refl
  contains-erase_ne j k ((i, w) ∷ d) h = ground (arith, contains-erase_ne j k d h)

  pub contains-eq-elem-keys : (j : ℕ) (d : Dict V) → contains j d ≡ elem j (keys d)
  contains-eq-elem-keys j [] = refl
  contains-eq-elem-keys j ((i, w) ∷ d) = ground (arith, contains-eq-elem-keys j d)
