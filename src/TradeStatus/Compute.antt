-- ===== src/TradeStatus/Compute.antt =====
-- `compute_trade_status` and what it calls: the bars of the day against the close before, the
-- suspensions of the pool, and the upsert.
use stock_platform.Prelude.{
  ℕ, ◌+◌, ◌-◌, ◌==◌, ◌&&◌, ◌||◌, Bool, true, false, ltb, leb, if◌then◌else◌, Option, none, some,
  List, [], ◌∷◌, ◌++◌, keep, elem, length,
}
use stock_platform.Prelude.Rows.{put}
use stock_platform.Float.{Float}
use stock_platform.Calendar.{Date}
use stock_platform.Execution.{Code, TradeStatus}
use stock_platform.Pipeline.Tables.{Text}
use stock_platform.Paper.Analytics.{sorted_set}
use stock_platform.TradeStatus.Limits.{LimitStatus, unlimited, base_threshold, classify_limit}

pub record Bar (F : Type 0) : Type 0 where
  pub stock_code : Code
  pub trade_date : Date
  pub opening : Option F
  pub close : Option F
  pub high : Option F
  pub low : Option F

-- A row of a `stock_pool` snapshot.
pub record Listed : Type 0 where
  pub stock_code : Code
  pub trade_date : Date
  pub stock_name : Text

-- A row of `sa_daily_trade_status`, with all its columns.
pub record Status : Type 0 where
  pub stock_code : Code
  pub trade_date : Date
  pub is_st : Option ℕ
  pub is_suspended : ℕ
  pub limit_status : LimitStatus
  pub buy_tradable : ℕ
  pub sell_tradable : ℕ

-- The columns that the execution layer reads.
abbrev pub engine_row : Status → TradeStatus
engine_row s = record {
  stock_code = s.stock_code;
  trade_date = s.trade_date;
  buy_tradable = s.buy_tradable;
  sell_tradable = s.sell_tradable;
}

abbrev pub engine_rows : List Status → List TradeStatus
engine_rows [] = []
engine_rows (s ∷ rows) = engine_row s ∷ engine_rows rows

abbrev upper : ℕ → ℕ
upper c = if leb b'a' c && leb c b'z' then c - 32 else c

-- `"ST" in str(name).upper()`
abbrev pub has_st : Text → Bool
has_st [] = false
has_st (c ∷ name) = starts_t name && upper c == b'S' || has_st name
  where
    starts_t : Text → Bool
    starts_t [] = false
    starts_t (d ∷ _) = upper d == b'T'

-- The date of the latest snapshot up to a day.
abbrev pub latest_snapshot : Date → List Listed → Option Date
latest_snapshot asof [] = none
latest_snapshot asof (p ∷ pool) =
    let rest = latest_snapshot asof pool in
    let later : Option Date = elim rest [
      | none ↦ some p.trade_date
      | some d ↦ some (if ltb d p.trade_date then p.trade_date else d)
    ] in
    if leb p.trade_date asof then later else rest

abbrev pub codes_of : List Listed → List Code
codes_of [] = []
codes_of (p ∷ pool) = p.stock_code ∷ codes_of pool

unfoldable pub st_codes_asof : List Listed → Date → List Code
st_codes_asof pool asof = elim (latest_snapshot asof pool) [
  | none ↦ []
  | some d ↦ codes_of (keep (λ (p : Listed). p.trade_date == d && has_st p.stock_name) pool)
]

abbrev pub pool_codes_on : List Listed → Date → List Code
pool_codes_on pool d = codes_of (keep (λ (p : Listed). p.trade_date == d) pool)

-- NULL where no name tells anything.
abbrev pub st_flag : List Code → Code → Option ℕ
st_flag [] c = none
st_flag (s ∷ codes) c = some (if elem c (s ∷ codes) then 1 else 0)

abbrev flag : Bool → ℕ
flag b = if b then 1 else 0

abbrev pub same_key : Code → Date → Status → Bool
same_key c d s = s.stock_code == c && s.trade_date == d

-- The columns that an upsert writes.
abbrev pub overwrite : Status → Status → Status
overwrite s t = record t {
  is_st = s.is_st;
  is_suspended = s.is_suspended;
  limit_status = s.limit_status;
  buy_tradable = s.buy_tradable;
  sell_tradable = s.sell_tradable;
}

unfoldable pub upsert_status : List Status → List Status → List Status
upsert_status [] table = table
upsert_status (s ∷ rows) table =
    upsert_status rows (put (same_key s.stock_code s.trade_date) (overwrite s) s table)

abbrev pub suspended_row : List Code → Date → Code → Status
suspended_row st_codes d c = record {
  stock_code = c;
  trade_date = d;
  is_st = st_flag st_codes c;
  is_suspended = 1;
  limit_status = unlimited;
  buy_tradable = 0;
  sell_tradable = 0;
}

-- `sorted(pool_codes - bar_codes)`
abbrev pub without : List Code → List Code → List Code
without bar_codes [] = []
without bar_codes (c ∷ codes) =
    let rest = without bar_codes codes in if elem c bar_codes then rest else c ∷ rest

abbrev pub suspended_rows : List Code → Date → List Code → List Status
suspended_rows st_codes d [] = []
suspended_rows st_codes d (c ∷ codes) = suspended_row st_codes d c ∷ suspended_rows st_codes d codes

module _ {F : Type 0} where
  abbrev pub bar_codes : List (Bar F) → List Code
  bar_codes [] = []
  bar_codes (b ∷ bars) = b.stock_code ∷ bar_codes bars

  -- The last close of a code before the day, within the window of twenty days; bars come by date.
  abbrev pub prev_close : Date → Code → List (Bar F) → Option F
  prev_close d c [] = none
  prev_close d c (b ∷ bars) =
      let own =
        if b.stock_code == c && ltb b.trade_date d && leb (d - 20) b.trade_date
        then b.close
        else none in
      elim (prev_close d c bars) [ none ↦ own | some x ↦ some x ]

  abbrev pub day_bars : Date → List (Bar F) → List (Bar F)
  day_bars d = keep (λ (b : Bar F). b.trade_date == d)

module _ {F : Type 0} ⦃fl : Float F⦄ where
  abbrev threshold : Code → Option ℕ → F
  threshold c is_st =
      let half = elim is_st as (λ _. Bool) [
        | none ↦ false
        | some n ↦ if n == 0 then false else true
      ] in
      fl.div (base_threshold c) (fl.of_ℕ (if half then 2 else 1))

  abbrev pub bar_row : List Code → List (Bar F) → Bar F → F → Status
  bar_row st_codes bars b close =
      let is_st = st_flag st_codes b.stock_code in
      let prev = prev_close b.trade_date b.stock_code bars in
      let (status, buyable, sellable) =
        classify_limit prev b.opening b.high b.low close (threshold b.stock_code is_st) in
      record {
        stock_code = b.stock_code;
        trade_date = b.trade_date;
        is_st = is_st;
        is_suspended = 0;
        limit_status = status;
        buy_tradable = flag buyable;
        sell_tradable = flag sellable;
      }

  -- A bar without a close has no row.
  abbrev pub bar_rows : List Code → List (Bar F) → List (Bar F) → List Status
  bar_rows st_codes bars [] = []
  bar_rows st_codes bars (b ∷ day) = elim b.close [
    | none ↦ bar_rows st_codes bars day
    | some close ↦ bar_row st_codes bars b close ∷ bar_rows st_codes bars day
  ]

  -- Whether any bar lies in the window that ends on the day.
  abbrev pub in_window : Date → List (Bar F) → List (Bar F)
  in_window d = keep (λ (b : Bar F). leb (d - 20) b.trade_date && leb b.trade_date d)

  abbrev pub status_rows : List Listed → List (Bar F) → Date → List Status
  status_rows pool bars d =
      let st_codes = st_codes_asof pool d in
      let day = day_bars d bars in
      let absent = without (bar_codes day) (sorted_set (pool_codes_on pool d)) in
      bar_rows st_codes bars day ++ suspended_rows st_codes d absent

  -- The table after the day, and the number of rows written. Where the window is empty, nothing is.
  unfoldable pub compute_trade_status :
      List Listed → List (Bar F) → Date → List Status → List Status × ℕ
  compute_trade_status pool bars d table =
      let rows = status_rows pool bars d in
      elim (in_window d bars) [ [] ↦ (table, 0) | _ ∷ _ ↦ (upsert_status rows table, length rows) ]

  -- `backfill_trade_status`: each date in turn, with the rows of all.
  unfoldable pub backfill_trade_status :
      List Listed → List (Bar F) → List Date → List Status → List Status × ℕ
  unfolding compute_trade_status
  backfill_trade_status pool bars [] table = (table, 0)
  backfill_trade_status pool bars (d ∷ dates) table =
      let (table1, n) = compute_trade_status pool bars d table in
      let (table2, m) = backfill_trade_status pool bars dates table1 in (table2, n + m)
