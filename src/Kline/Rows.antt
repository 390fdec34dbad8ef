-- ===== src/Kline/Rows.antt =====
-- Bars and their upserts: `validate_daily_row`, `find_duplicate_keys`, `upsert_daily_rows` and
-- `upsert_kline_rows`. A date that a fetcher writes as text is its ordinal here.
pub mod Laws
use stock_platform.Prelude.{
  ℕ, ◌+◌, ◌==◌, ◌&&◌, Bool, true, false, if◌then◌else◌, Option, none, some, List, [], ◌∷◌, ◌++◌,
  keep, length,
}
use stock_platform.Prelude.Int.{ℤ}
use stock_platform.Prelude.Rows.{put}
use stock_platform.Prelude.Dict.{Dict, get_or}
use stock_platform.Float.{Float}
use stock_platform.Calendar.{Date}
use stock_platform.Execution.{Code}

-- `_source`: which source served a row.
pub data Source : Type 0 where
  tencent em : Source

-- A row as the fetchers return it.
pub record Bar (F : Type 0) : Type 0 where
  pub stock_code : Code
  pub trade_date : Date
  pub opening : Option F
  pub close : Option F
  pub high : Option F
  pub low : Option F
  pub volume : Option ℤ
  pub amount : Option F
  pub pct_change : Option F
  pub turnover : Option F
  pub source : Option Source

abbrev present {ℓ} : {A : Type ℓ} → Option A → Bool
present none = false
present (some _) = true

-- `_to_date` and the key that two rows share.
abbrev pub same_bar : {F : Type 0} → Bar F → Bar F → Bool
same_bar a b = b.stock_code == a.stock_code && b.trade_date == a.trade_date

abbrev pub is_bar : {F : Type 0} → Code → Date → Bar F → Bool
is_bar c d b = b.stock_code == c && b.trade_date == d

-- The keys seen so far with their counts.
abbrev pub count_key : Code × Date → List ((Code × Date) × ℕ) → ℕ
count_key k [] = 0
count_key k ((j, n) ∷ seen) =
    let rest = count_key k seen in if j.0 == k.0 && j.1 == k.1 then n else rest

abbrev pub see_key : Code × Date → List ((Code × Date) × ℕ) → List ((Code × Date) × ℕ)
see_key k [] = (k, 1) ∷ []
see_key k ((j, n) ∷ seen) =
    let rest = see_key k seen in
    if j.0 == k.0 && j.1 == k.1 then (j, n + 1) ∷ seen else (j, n) ∷ rest

module _ {F : Type 0} where
  -- The required fields; the test of `pct_change` only logs.
  unfoldable pub validate_daily_row : Option Code → Option Date → Option F → Bool
  validate_daily_row code day close = present code && present day && present close

  abbrev pub is_valid : Bar F → Bool
  is_valid b = validate_daily_row (some b.stock_code) (some b.trade_date) b.close

  abbrev pub duplicates_from : List ((Code × Date) × ℕ) → List (Bar F) → List (Code × Date)
  duplicates_from seen [] = []
  duplicates_from seen (b ∷ bars) =
      let key : Code × Date = (b.stock_code, b.trade_date) in
      let rest = duplicates_from (see_key key seen) bars in
      if count_key key (see_key key seen) == 2 then key ∷ rest else rest

  unfoldable pub find_duplicate_keys : List (Bar F) → List (Code × Date)
  find_duplicate_keys = duplicates_from []

module _ {F : Type 0} ⦃fl : Float F⦄ where
  -- A decimal column with k places.
  abbrev column : ℕ → Option F → Option F
  column k none = none
  column k (some x) = some (fl.round x k)

  -- The row of `sa_kline_daily`, whose columns round.
  abbrev pub kline_row : Option Source → Bar F → Bar F
  kline_row source b = record b {
    opening = column 2 b.opening;
    close = column 2 b.close;
    high = column 2 b.high;
    low = column 2 b.low;
    amount = column 2 b.amount;
    pct_change = column 4 b.pct_change;
    turnover = column 4 b.turnover;
    source = elim b.source [ none ↦ source | some s ↦ some s ];
  }

  -- `daily_prices` has no column for the source.
  abbrev pub daily_row : Bar F → Bar F
  daily_row b = record (kline_row none b) { source = none }

  -- An upsert writes all columns but the key.
  abbrev pub write_row : Bar F → List (Bar F) → List (Bar F)
  write_row b = put (same_bar b) (λ _. b) b

  abbrev pub write_rows : (Bar F → Bar F) → List (Bar F) → List (Bar F) → List (Bar F)
  write_rows row [] table = table
  write_rows row (b ∷ bars) table = write_rows row bars (write_row (row b) table)

  unfoldable pub upsert_daily_rows : List (Bar F) → List (Bar F) → List (Bar F) × ℕ
  upsert_daily_rows bars table =
      let valid = keep is_valid bars in (write_rows daily_row valid table, length valid)

  unfoldable pub upsert_kline_rows : Option Source → List (Bar F) → List (Bar F) → List (Bar F) × ℕ
  upsert_kline_rows source bars table =
      let valid = keep is_valid bars in (write_rows (kline_row source) valid table, length valid)
