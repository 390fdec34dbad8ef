-- ===== src/Factor/Cache.antt =====
-- The caches of a session: `per_code_rows`, `whole_table`, `latest_le`, `warm`, `_group_and_seed` and
-- the prefetches. A table stands in the order of its key, the code and then the date, which is the
-- order that every query here asks for.
pub mod Latest
pub mod Grouping
pub mod Prefetch
use stock_platform.Prelude.{
  ℕ, zero, suc, ◌+◌, ◌==◌, ◌&&◌, Bool, leb, if◌then◌else◌, Option, none, some, List, [], ◌∷◌, ◌++◌,
  keep, elem, get_elem?,
}
use stock_platform.Prelude.Dict.{Dict, lookup, insert, insert_all}
use stock_platform.Calendar.{Date}
use stock_platform.Execution.{Code}

-- A row of a table by code and date (`trade_date` or `report_date`), with the columns that are read.
pub record Row (V : Type 0) : Type 0 where
  pub stock_code : Code
  pub date : Date
  pub value : V

abbrev pub Cache : Type 0 → Type 0
Cache V = Dict (List (Row V))

module _ {V : Type 0} where
  abbrev pub is_of : Code → Row V → Bool
  is_of c r = r.stock_code == c

  -- What `bisect_right` finds in ascending dates: the number of those up to the day.
  abbrev pub bisect_right : List (Row V) → Date → ℕ
  bisect_right [] d = 0
  bisect_right (r ∷ rows) d = let rest = bisect_right rows d in if leb r.date d then suc rest else 0

  abbrev pub before_index : List (Row V) → ℕ → Option (Row V)
  before_index rows zero = none
  before_index rows (suc i) = get_elem? rows i

  -- The last row up to the day.
  unfoldable pub latest_le : List (Row V) → Date → Option (Row V)
  latest_le rows d = before_index rows (bisect_right rows d)

  -- The rows of a code and the cache after the read.
  unfoldable pub per_code_rows : (Code → List (Row V)) → Code → Cache V → List (Row V) × Cache V
  per_code_rows loader c cache = elim (lookup c cache) as (λ _. List (Row V) × Cache V) [
    | some rows ↦ (rows, cache)
    | none ↦ (loader c, insert c (loader c) cache)
  ]

  -- A table that is loaded once.
  unfoldable pub whole_table :
      List (Row V) → Option (List (Row V)) → List (Row V) × Option (List (Row V))
  whole_table table (some rows) = (rows, some rows)
  whole_table table none = (table, some table)

  unfoldable pub warm : Cache V → Cache V → Cache V
  warm cache grouped = insert_all grouped cache

  -- `grouped.setdefault(k, []).append(r)`
  abbrev pub append_to : Code → Row V → Cache V → Cache V
  append_to k r [] = (k, r ∷ []) ∷ []
  append_to k r ((j, rows) ∷ d) =
      let rest = append_to k r d in if k == j then (j, rows ++ (r ∷ [])) ∷ d else (j, rows) ∷ rest

  abbrev pub group : List (Row V) → Cache V → Cache V
  group [] d = d
  group (r ∷ rows) d = group rows (append_to r.stock_code r d)

  -- `grouped.setdefault(c, [])`
  abbrev pub set_default : Code → Cache V → Cache V
  set_default c [] = (c, []) ∷ []
  set_default c ((j, rows) ∷ d) =
      let rest = set_default c d in if c == j then (j, rows) ∷ d else (j, rows) ∷ rest

  abbrev pub seed : List Code → Cache V → Cache V
  seed [] d = d
  seed (c ∷ codes) d = seed codes (set_default c d)

  unfoldable pub group_and_seed : List (Row V) → List Code → Cache V
  group_and_seed rows codes = seed codes (group rows [])

  -- The direct query of one code: `pool_rows_for` and the like load it.
  abbrev pub rows_for : List (Row V) → Code → List (Row V)
  rows_for table c = keep (is_of c) table

  -- `prefetch_stock_pool` and `prefetch_streak`.
  unfoldable pub prefetch : List (Row V) → List Code → Date → Cache V → Cache V
  unfolding warm group_and_seed
  prefetch table [] end cache = cache
  prefetch table (c ∷ codes) end cache =
      let found = keep (λ (r : Row V). elem r.stock_code (c ∷ codes) && leb r.date end) table in
      warm cache (group_and_seed found (c ∷ codes))

  -- `prefetch_financial`: the rows of all dates.
  unfoldable pub prefetch_financial : List (Row V) → List Code → Cache V → Cache V
  unfolding warm group_and_seed
  prefetch_financial table [] cache = cache
  prefetch_financial table (c ∷ codes) cache =
      warm cache
        (group_and_seed (keep (λ (r : Row V). elem r.stock_code (c ∷ codes)) table) (c ∷ codes))
