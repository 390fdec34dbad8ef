-- ===== src/TradeStatus/Upserts.antt =====
-- What an upsert of the day's statuses does to the flags of one stock, and how these are read back.
use stock_platform.Prelude.{
  ℕ, ◌≡◌, refl, arith, inl, inr, ◌==◌, ◌&&◌, ◌||◌, Bool, true, false, if◌then◌else◌, none, some,
  List, [], ◌∷◌, ◌++◌, keep, elem, exists, first, Bool-cases, Option-cases,
}
use stock_platform.Prelude.Rows.{put, update}
use stock_platform.Prelude.Dict.{Dict, lookup, insert, insert_all, lookup-insert}
use stock_platform.Calendar.{Date}
use stock_platform.Execution.{Code, TradeStatus, nonzero}
use stock_platform.Execution.{status_rows as flag_rows}
use stock_platform.TradeStatus.Compute.{
  Status, engine_row, engine_rows, same_key, overwrite, upsert_status,
}

exists-append-one {ℓ} :
    {A : Type ℓ} (p : A → Bool) (xs : List A) (x : A)
    → exists p (xs ++ (x ∷ [])) ≡ exists p xs || p x
exists-append-one p [] x = ground (arith, Bool-cases (p x))
exists-append-one p (y ∷ xs) x = ground (arith, exists-append-one p xs x)

module _ (c : Code) (d : Date) (column : TradeStatus → ℕ) where
  -- A row of the key whose flag is set.
  abbrev pub is_open : Status → Bool
  is_open s = same_key c d s && nonzero (column (engine_row s))

  update-open :
      (s : Status) (table : List Status)
      → ((t : Status) → column (engine_row (overwrite s t)) ≡ column (engine_row s))
      → is_open s ≡ false
      → exists is_open table ≡ false
      → exists is_open (update (same_key s.stock_code s.trade_date) (overwrite s) table) ≡ false
  update-open s [] same h g = refl
  update-open s (t ∷ table) same h g = ground (arith, same t, update-open s table same)

  put-open :
      (s : Status) (table : List Status)
      → ((t : Status) → column (engine_row (overwrite s t)) ≡ column (engine_row s))
      → is_open s ≡ false
      → exists is_open table ≡ false
      → exists is_open (put (same_key s.stock_code s.trade_date) (overwrite s) s table) ≡ false
  put-open s table same h g =
      elim (Option-cases (first (same_key s.stock_code s.trade_date) table)) [
        | inl e ↦ ground (arith, e, exists-append-one is_open table s, h, g)
        | inr (t, e) ↦ ground (arith, e, update-open s table same h g)
      ]

  -- A write of the key clears its rows.
  update-own :
      (s : Status) (table : List Status)
      → ((t : Status) → column (engine_row (overwrite s t)) ≡ column (engine_row s))
      → same_key c d s ≡ true
      → nonzero (column (engine_row s)) ≡ false
      → exists is_open (update (same_key s.stock_code s.trade_date) (overwrite s) table) ≡ false
  update-own s [] same k h = refl
  update-own s (t ∷ table) same k h = ground (arith, same t, update-own s table same k h)

  first-none-open :
      (s : Status) (table : List Status)
      → same_key c d s ≡ true
      → first (same_key s.stock_code s.trade_date) table ≡ none
      → exists is_open table ≡ false
  first-none-open s [] k e = refl
  first-none-open s (t ∷ table) k e = ground (arith, first-none-open s table k)

  put-own :
      (s : Status) (table : List Status)
      → ((t : Status) → column (engine_row (overwrite s t)) ≡ column (engine_row s))
      → same_key c d s ≡ true
      → nonzero (column (engine_row s)) ≡ false
      → exists is_open (put (same_key s.stock_code s.trade_date) (overwrite s) s table) ≡ false
  put-own s table same k h =
      elim (Option-cases (first (same_key s.stock_code s.trade_date) table)) [
        | inl e ↦
            ground (arith, e, k, h, exists-append-one is_open table s, first-none-open s table k e)
        | inr (t, e) ↦ ground (arith, e, update-own s table same k h)
      ]

-- The rows of a key stay.
exists-update :
    (c : Code) (d : Date) (s : Status) (table : List Status)
    → exists (same_key c d) (update (same_key s.stock_code s.trade_date) (overwrite s) table)
      ≡ exists (same_key c d) table
exists-update c d s [] = refl
exists-update c d s (t ∷ table) = ground (arith, exists-update c d s table)

exists-first :
    (c : Code) (d : Date) (s : Status) (table : List Status)
    → same_key c d s ≡ true
    → exists (same_key c d) table ≡ false
    → first (same_key s.stock_code s.trade_date) table ≡ none
exists-first c d s [] k e = refl
exists-first c d s (t ∷ table) k e = ground (arith, exists-first c d s table k)

exists-put :
    (c : Code) (d : Date) (s : Status) (table : List Status)
    → exists (same_key c d) (put (same_key s.stock_code s.trade_date) (overwrite s) s table)
      ≡ exists (same_key c d) table || same_key c d s
exists-put c d s table = elim (Option-cases (first (same_key s.stock_code s.trade_date) table)) [
  | inl e ↦ ground (arith, e, exists-append-one (same_key c d) table s)
  | inr (t, e) ↦ elim (Bool-cases (same_key c d s)) [
    | inl k ↦ elim (Bool-cases (exists (same_key c d) table)) [
      | inl h ↦ ground (arith, e, h, exists-update c d s table)
      | inr h ↦ ground (arith, e, exists-first c d s table k h)
    ]
    | inr k ↦
        ground (arith, e, k, exists-update c d s table, Bool-cases (exists (same_key c d) table))
  ]
]

pub exists-upsert_status :
    (c : Code) (d : Date) (rows table : List Status)
    → exists (same_key c d) (upsert_status rows table)
      ≡ exists (same_key c d) table || exists (same_key c d) rows
unfolding upsert_status
exists-upsert_status c d [] table = ground (arith, Bool-cases (exists (same_key c d) table))
exists-upsert_status c d (s ∷ rows) table =
    let next = put (same_key s.stock_code s.trade_date) (overwrite s) s table in
    ground (
      arith,
      exists-upsert_status c d rows next,
      exists-put c d s table,
      Bool-cases (exists (same_key c d) table),
      Bool-cases (same_key c d s),
    )

-- Rows that leave the flag of the key down, and one of them writes it.
pub upsert_status-open :
    (c : Code) (d : Date) (column : TradeStatus → ℕ) (rows table : List Status)
    → ((s t : Status) → column (engine_row (overwrite s t)) ≡ column (engine_row s))
    → exists (is_open c d column) rows ≡ false
    → exists (is_open c d column) table && (if exists (same_key c d) rows then false else true)
      ≡ false
    → exists (is_open c d column) (upsert_status rows table) ≡ false
unfolding upsert_status
upsert_status-open c d column [] table same h g =
    ground (arith, Bool-cases (exists (is_open c d column) table))
upsert_status-open c d column (s ∷ rows) table same h g =
    let next = put (same_key s.stock_code s.trade_date) (overwrite s) s table in
    let rest = upsert_status-open c d column rows next same in
    let down = exists (is_open c d column) in
    elim (Bool-cases (same_key c d s)) [
      | inl k ↦ ground (arith, h, g, k, rest, put-own c d column s table (same s) k)
      | inr k ↦ elim (Bool-cases (down table)) [
        | inl o ↦ ground (arith, h, g, k, o, rest, Bool-cases (down next))
        | inr o ↦ ground (arith, h, g, k, o, rest, put-open c d column s table (same s))
      ]
    ]

-- The flag that the execution layer reads.
pub lookup-insert_all :
    (c : Code) (d : Date) (column : TradeStatus → ℕ) (codes : List Code) (table : List Status)
    (acc : Dict Bool)
    → elem c codes ≡ true
    → exists (is_open c d column) table ≡ false
    → (exists (same_key c d) table ≡ false → lookup c acc ≡ some false)
    → lookup c (
        insert_all
          (flag_rows column (
            keep
              (λ (r : TradeStatus). r.trade_date == d && elem r.stock_code codes)
              (engine_rows table)))
          acc)
      ≡ some false
lookup-insert_all c d column codes [] acc m h g = ground (arith, g)
lookup-insert_all c d column codes (s ∷ table) acc m h g =
    let flag = nonzero (column (engine_row s)) in
    elim (Bool-cases (s.trade_date == d && elem s.stock_code codes)) [
      | inl k ↦
          let next = insert s.stock_code flag acc in
          ground (
            arith,
            k,
            m,
            h,
            g,
            lookup-insert_all c d column codes table next m (ground (arith, h))
                (λ e. ground (arith, e, k, h, g, m, lookup-insert c s.stock_code flag acc)),
          )
      | inr k ↦ ground (
        arith,
        k,
        m,
        h,
        g,
        lookup-insert_all c d column codes table acc m (ground (arith, h))
            (λ e. ground (arith, e, k, g, m)),
      )
    ]
