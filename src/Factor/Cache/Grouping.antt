-- ===== src/Factor/Cache/Grouping.antt =====
-- Lemmas on `_group_and_seed` and `warm` (backend/app/factor/cache.py).
use stock_platform.Prelude.{
  ◌==◌, ◌≤◌, ◌≡◌, refl, arith, ◌&&◌, Bool, if◌then◌else◌, none, some, List, [], ◌∷◌, ◌++◌, keep,
  elem, count, sym, ap,
}
use stock_platform.Prelude.Dict.{lookup, get_or, insert, insert_all, lookup-insert}
use stock_platform.Execution.{Code}
use stock_platform.Factor.Cache.{Row, Cache, is_of, warm, append_to, group, set_default, seed}

module _ {V : Type 0} where
  lookup-append_to :
      (c k : Code) (r : Row V) (d : Cache V)
      → lookup c (append_to k r d)
        ≡ (if c == k then some (get_or [] (lookup c d) ++ (r ∷ [])) else lookup c d)
  lookup-append_to c k r [] = ground arith
  lookup-append_to c k r ((j, rows) ∷ d) = ground (arith, lookup-append_to c k r d)

  abbrev pub is_key : Code → Code × List (Row V) → Bool
  is_key c entry = c == entry.0

  count-append_to :
      (c k : Code) (r : Row V) (d : Cache V)
      → count (is_key c) (append_to k r d)
        ≡ (if c == k && count (is_key c) d == 0 then 1 else count (is_key c) d)
  count-append_to c k r [] = ground arith
  count-append_to c k r ((j, rows) ∷ d) = ground (arith, count-append_to c k r d)

  pub count-group :
      (c : Code) (rows : List (Row V)) (d : Cache V)
      → count (is_key c) d ≤ 1
      → count (is_key c) (group rows d) ≤ 1
  count-group c [] d h = h
  count-group c (r ∷ rows) d h =
      count-group c rows (append_to r.stock_code r d)
        (ground (arith, h, count-append_to c r.stock_code r d))

  count-set_default :
      (c k : Code) (d : Cache V)
      → count (is_key c) (set_default k d)
        ≡ (if c == k && count (is_key c) d == 0 then 1 else count (is_key c) d)
  count-set_default c k [] = ground arith
  count-set_default c k ((j, rows) ∷ d) = ground (arith, count-set_default c k d)

  pub count-seed :
      (c : Code) (codes : List Code) (d : Cache V)
      → count (is_key c) d ≤ 1
      → count (is_key c) (seed codes d) ≤ 1
  count-seed c [] d h = h
  count-seed c (k ∷ codes) d h =
      count-seed c codes (set_default k d) (ground (arith, h, count-set_default c k d))

  lookup-set_default :
      (c k : Code) (d : Cache V)
      → lookup c (set_default k d) ≡ (if c == k then some (get_or [] (lookup c d)) else lookup c d)
  lookup-set_default c k [] = ground arith
  lookup-set_default c k ((j, rows) ∷ d) = ground (arith, lookup-set_default c k d)

  append_assoc : (xs ys zs : List (Row V)) → (xs ++ ys) ++ zs ≡ xs ++ (ys ++ zs)
  append_assoc [] ys zs = refl
  append_assoc (x ∷ xs) ys zs = ap (λ l. x ∷ l) (append_assoc xs ys zs)

  append_nil : (xs : List (Row V)) → xs ++ [] ≡ xs
  append_nil [] = refl
  append_nil (x ∷ xs) = ap (λ l. x ∷ l) (append_nil xs)

  pub lookup-group :
      (c : Code) (rows : List (Row V)) (d : Cache V)
      → get_or [] (lookup c (group rows d)) ≡ get_or [] (lookup c d) ++ keep (is_of c) rows
  lookup-group c [] d = sym (append_nil (get_or [] (lookup c d)))
  lookup-group c (r ∷ rows) d =
      let next = append_to r.stock_code r d in
      ground (
        arith,
        lookup-group c rows next,
        lookup-append_to c r.stock_code r d,
        append_assoc (get_or [] (lookup c d)) (r ∷ []) (keep (is_of c) rows),
      )

  pub lookup-seed :
      (c : Code) (codes : List Code) (d : Cache V)
      → lookup c (seed codes d)
        ≡ (if elem c codes then some (get_or [] (lookup c d)) else lookup c d)
  lookup-seed c [] d = refl
  lookup-seed c (k ∷ codes) d =
      ground (arith, lookup-seed c codes (set_default k d), lookup-set_default c k d)

  lookup_absent : (c : Code) (d : Cache V) → count (is_key c) d ≡ 0 → lookup c d ≡ none
  lookup_absent c [] h = refl
  lookup_absent c ((j, rows) ∷ d) h = ground (arith, h, lookup_absent c d)

  insert_all_absent :
      (c : Code) (d cache : Cache V)
      → count (is_key c) d ≡ 0
      → lookup c (insert_all d cache) ≡ lookup c cache
  insert_all_absent c [] cache h = refl
  insert_all_absent c ((j, rows) ∷ d) cache h =
      ground (arith, h, insert_all_absent c d (insert j rows cache), lookup-insert c j rows cache)

  pub lookup-warm :
      (c : Code) (d cache : Cache V) {rows : List (Row V)}
      → count (is_key c) d ≤ 1
      → lookup c d ≡ some rows
      → lookup c (warm cache d) ≡ some rows
  unfolding warm
  lookup-warm c [] cache h e = cc
  lookup-warm c ((j, rows) ∷ d) cache {rows = r} h e = ground (
    arith,
    h,
    e,
    lookup-warm c d (insert j rows cache) {rows = r},
    insert_all_absent c d (insert j rows cache),
    lookup-insert c j rows cache,
  )
