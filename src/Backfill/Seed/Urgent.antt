-- ===== src/Backfill/Seed/Urgent.antt =====
-- Laws of `enqueue_priority` (backend/app/data/kline_rebuild.py).
use stock_platform.Prelude.{
  ℕ, ◌==◌, ◌≡◌, refl, arith, ◌&&◌, ◌||◌, Bool, true, List, [], ◌∷◌, ◌++◌, exists, elem, Bool-cases,
  inl, inr, subst,
}
use stock_platform.Prelude.Rows.{update}
use stock_platform.Calendar.{Date}
use stock_platform.Execution.{Code}
use stock_platform.Backfill.State.{Row}
use stock_platform.Backfill.Batch.{is_due}
use stock_platform.Backfill.Seed.{
  new_row, Table, Pool, has_code, requeue, enqueue_code, enqueue_codes, enqueue_priority,
}

-- A row of the code that is due before the others.
abbrev pub is_urgent : Code → Row → Bool
is_urgent c r = has_code c r && is_due r && r.priority == 0

module _ (years : ℕ) (today : Date) (pool : Pool) where
  has_code-update :
      (c k : Code) (rows : List Row)
      → exists (has_code c) (update (has_code k) requeue rows) ≡ exists (has_code c) rows
  has_code-update c k [] = refl
  has_code-update c k (r ∷ rows) = ground (arith, has_code-update c k rows)

  is_urgent-update :
      (c k : Code) (rows : List Row)
      → exists (is_urgent c) rows ≡ true
      → exists (is_urgent c) (update (has_code k) requeue rows) ≡ true
  is_urgent-update c k [] h = ground (arith, h)
  is_urgent-update c k (r ∷ rows) h = ground (arith, h, is_urgent-update c k rows)

  is_urgent-requeue :
      (c : Code) (rows : List Row)
      → exists (has_code c) rows ≡ true
      → exists (is_urgent c) (update (has_code c) requeue rows) ≡ true
  is_urgent-requeue c [] h = ground (arith, h)
  is_urgent-requeue c (r ∷ rows) h = ground (arith, h, is_urgent-requeue c rows)

  exists-append_one :
      (p : Row → Bool) (rows : List Row) (r : Row)
      → exists p (rows ++ (r ∷ [])) ≡ exists p rows || p r
  exists-append_one p [] r = ground (arith, Bool-cases (p r))
  exists-append_one p (s ∷ rows) r = ground (arith, exists-append_one p rows r)

  enqueue_code-kept :
      (known : List Row) (k : Code) (t : Table) (c : Code)
      → exists (has_code c) t.rows ≡ true
      → exists (has_code c) (enqueue_code years today pool known k t).rows ≡ true
  enqueue_code-kept known k t c h = elim (Bool-cases (exists (has_code k) known)) [
    | inl e ↦ ground (arith, e, h, has_code-update c k t.rows)
    | inr e ↦
        ground (arith, e, h, exists-append_one (has_code c) t.rows (new_row years today pool k t))
  ]

  enqueue_code-urgent :
      (known : List Row) (k : Code) (t : Table) (c : Code)
      → exists (is_urgent c) t.rows ≡ true
      → exists (is_urgent c) (enqueue_code years today pool known k t).rows ≡ true
  enqueue_code-urgent known k t c h = elim (Bool-cases (exists (has_code k) known)) [
    | inl e ↦ ground (arith, e, is_urgent-update c k t.rows h)
    | inr e ↦
        ground (arith, e, h, exists-append_one (is_urgent c) t.rows (new_row years today pool k t))
  ]

  enqueue_code_lem :
      (known : List Row) (t : Table) (c : Code)
      → (exists (has_code c) known ≡ true → exists (has_code c) t.rows ≡ true)
      → exists (is_urgent c) (enqueue_code years today pool known c t).rows ≡ true
  enqueue_code_lem known t c sub = elim (Bool-cases (exists (has_code c) known)) [
    | inl e ↦ ground (arith, e, is_urgent-requeue c t.rows (sub e))
    | inr e ↦ ground (
      arith,
      e,
      Bool-cases (exists (is_urgent c) t.rows),
      exists-append_one (is_urgent c) t.rows (new_row years today pool c t),
    )
  ]

  enqueue_codes-urgent :
      (known : List Row) (codes : List Code) (t : Table) (c : Code)
      → exists (is_urgent c) t.rows ≡ true
      → exists (is_urgent c) (enqueue_codes years today pool known codes t).rows ≡ true
  enqueue_codes-urgent known [] t c h = h
  enqueue_codes-urgent known (k ∷ codes) t c h =
      enqueue_codes-urgent known codes (enqueue_code years today pool known k t) c
        (enqueue_code-urgent known k t c h)

  enqueue_codes_lem :
      (known : List Row) (codes : List Code) (t : Table) (c : Code)
      → (exists (has_code c) known ≡ true → exists (has_code c) t.rows ≡ true)
      → elem c codes ≡ true
      → exists (is_urgent c) (enqueue_codes years today pool known codes t).rows ≡ true
  enqueue_codes_lem known [] t c sub m = ground (arith, m)
  enqueue_codes_lem known (k ∷ codes) t c sub m =
      let next = enqueue_code years today pool known k t in
      elim (Bool-cases (c == k)) [
        | inl e ↦ enqueue_codes-urgent known codes next c (
            subst (λ j. exists (is_urgent c) (enqueue_code years today pool known j t).rows ≡ true)
              (ground (arith, e)) (enqueue_code_lem known t c sub))
        | inr e ↦
            enqueue_codes_lem known codes next c (λ h. enqueue_code-kept known k t c (sub h))
              (ground (arith, e, m))
      ]

  -- Each code of the contaminated list, whatever its row was and also where it had none, has a row
  -- that is due, at priority 0.
  pub enqueue_priority_lem :
      (codes : List Code) (t : Table) (c : Code)
      → elem c codes ≡ true
      → exists (is_urgent c) (enqueue_priority years today pool codes t).0.rows ≡ true
  unfolding enqueue_priority
  enqueue_priority_lem codes t c m = enqueue_codes_lem t.rows codes t c (λ h. h) m
