-- ===== src/TradeStatus/Suspension.antt =====
-- A suspended stock, from the pool's snapshot to the decision of the execution layer.
use stock_platform.Prelude.{
  ℕ, ◌≡◌, refl, arith, inl, inr, ◌==◌, ◌&&◌, ◌||◌, Bool, true, false, if◌then◌else◌, Option, some,
  List, [], ◌∷◌, ◌++◌, keep, elem, exists, Bool-cases, Option-cases,
}
use stock_platform.Prelude.Dict.{lookup, insert_all, get_or}
use stock_platform.Calendar.{Date}
use stock_platform.Execution.{
  Code, TradeStatus, fetch_tradability, match_fill, Reason, buy, sell, skip, defer, no_price,
  no_open_price, buy_blocked, sell_blocked,
}
use stock_platform.Prelude.Result.{ok}
use stock_platform.Execution.{status_rows as flag_rows}
use stock_platform.Float.{Float}
use stock_platform.Paper.Analytics.{sorted_set}
use stock_platform.Paper.Analytics.Codes.{elem-sorted_set}
use stock_platform.TradeStatus.Compute.{
  Listed, bar_codes, day_bars, in_window, without, suspended_row, suspended_rows, bar_rows,
  pool_codes_on, st_codes_asof, status_rows, compute_trade_status, Bar, Status, engine_row,
  engine_rows, same_key, overwrite, upsert_status,
}
use stock_platform.TradeStatus.Upserts.{
  is_open, exists-upsert_status, upsert_status-open, lookup-insert_all,
}

open_none :
    (c : Code) (d : Date) (column : TradeStatus → ℕ) (rows : List Status)
    → exists (same_key c d) rows ≡ false
    → exists (is_open c d column) rows ≡ false
open_none c d column [] h = refl
open_none c d column (s ∷ rows) h =
    ground (arith, h, open_none c d column rows, Bool-cases (same_key c d s))

exists-append {ℓ} :
    {A : Type ℓ} (p : A → Bool) (xs ys : List A) → exists p (xs ++ ys) ≡ exists p xs || exists p ys
exists-append p [] ys = refl
exists-append p (x ∷ xs) ys = ground (arith, exists-append p xs ys, Bool-cases (p x))

elem-without :
    (c : Code) (codes others : List Code)
    → elem c others ≡ false
    → elem c (without others codes) ≡ elem c codes
elem-without c [] others h = refl
elem-without c (b ∷ codes) others h = ground (arith, elem-without c codes others h, h)

exists-suspended_rows :
    (c : Code) (d : Date) (st_codes codes : List Code)
    → exists (same_key c d) (suspended_rows st_codes d codes) ≡ elem c codes
exists-suspended_rows c d st_codes [] = refl
exists-suspended_rows c d st_codes (b ∷ codes) =
    ground (arith, exists-suspended_rows c d st_codes codes)

suspended_rows-open :
    (c : Code) (d : Date) (column : TradeStatus → ℕ) (st_codes codes : List Code)
    → ((b : Code) → column (engine_row (suspended_row st_codes d b)) ≡ 0)
    → exists (is_open c d column) (suspended_rows st_codes d codes) ≡ false
suspended_rows-open c d column st_codes [] h = refl
suspended_rows-open c d column st_codes (b ∷ codes) h =
    ground (arith, h b, suspended_rows-open c d column st_codes codes h)

module _ {F : Type 0} ⦃fl : Float F⦄ where
  exists-bar_rows :
      (c : Code) (d : Date) (st_codes : List Code) (bars day : List (Bar F))
      → elem c (bar_codes day) ≡ false
      → exists (same_key c d) (bar_rows st_codes bars day) ≡ false
  exists-bar_rows c d st_codes bars [] h = refl
  exists-bar_rows c d st_codes bars (b ∷ day) h = elim (Option-cases b.close) [
    | inl e ↦ ground (arith, e, h, exists-bar_rows c d st_codes bars day)
    | inr (x, e) ↦ ground (arith, e, h, exists-bar_rows c d st_codes bars day)
  ]

  -- The rows of the day: one of the suspended code, and its flag is down.
  status_rows-key :
      (pool : List Listed) (bars : List (Bar F)) (d : Date) (c : Code)
      → elem c (pool_codes_on pool d) ≡ true
      → elem c (bar_codes (day_bars d bars)) ≡ false
      → exists (same_key c d) (status_rows pool bars d) ≡ true
  status_rows-key pool bars d c listed dark =
      let st_codes = st_codes_asof pool d in
      let day = day_bars d bars in
      let codes = sorted_set (pool_codes_on pool d) in
      let absent = without (bar_codes day) codes in
      ground (
        arith,
        exists-append (same_key c d) (bar_rows st_codes bars day)
            (suspended_rows st_codes d absent),
        exists-suspended_rows c d st_codes absent,
        elem-without c codes (bar_codes day) dark,
        elem-sorted_set c (pool_codes_on pool d),
        exists-bar_rows c d st_codes bars day dark,
      )

  status_rows-open :
      (column : TradeStatus → ℕ) (pool : List Listed) (bars : List (Bar F)) (d : Date) (c : Code)
      → ((st_codes : List Code) (b : Code) → column (engine_row (suspended_row st_codes d b)) ≡ 0)
      → elem c (bar_codes (day_bars d bars)) ≡ false
      → exists (is_open c d column) (status_rows pool bars d) ≡ false
  status_rows-open column pool bars d c down dark =
      let st_codes = st_codes_asof pool d in
      let day = day_bars d bars in
      let absent = without (bar_codes day) (sorted_set (pool_codes_on pool d)) in
      ground (
        arith,
        exists-append (is_open c d column) (bar_rows st_codes bars day)
            (suspended_rows st_codes d absent),
        suspended_rows-open c d column st_codes absent (down st_codes),
        open_none c d column (bar_rows st_codes bars day)
            (exists-bar_rows c d st_codes bars day dark),
      )

  -- One column of the flags after the day.
  suspended_flag :
      (column : TradeStatus → ℕ) (pool : List Listed) (bars : List (Bar F)) (d : Date) (c : Code)
      (codes : List Code) (table : List Status)
      → ((s t : Status) → column (engine_row (overwrite s t)) ≡ column (engine_row s))
      → ((st_codes : List Code) (b : Code) → column (engine_row (suspended_row st_codes d b)) ≡ 0)
      → elem c (pool_codes_on pool d) ≡ true
      → elem c (bar_codes (day_bars d bars)) ≡ false
      → elem c codes ≡ true
      → lookup c (
          insert_all
            (flag_rows column (
              keep
                (λ (r : TradeStatus). r.trade_date == d && elem r.stock_code codes)
                (engine_rows (upsert_status (status_rows pool bars d) table))))
            [])
        ≡ some false
  suspended_flag column pool bars d c codes table same down listed dark asked =
      let rows = status_rows pool bars d in
      let key = status_rows-key pool bars d c listed dark in
      lookup-insert_all c d column codes (upsert_status rows table) [] asked
        (upsert_status-open c d column rows table same
          (status_rows-open column pool bars d c down dark)
          (ground (arith, key, Bool-cases (exists (is_open c d column) table))))
        (λ e. ground (
          arith,
          e,
          key,
          exists-upsert_status c d rows table,
          Bool-cases (exists (same_key c d) table),
        ))

  -- Where a code is in the pool's snapshot of a day without a bar of the day, and the window before it
  -- holds any bar, the table that `compute_trade_status` leaves blocks the code on that day, whatever
  -- the table held before: `fetch_tradability` reads false for both sides, so that `match_fill` defers a
  -- sell and skips a buy at any price.
  pub compute_trade_status-suspended :
      (pool : List Listed) (bars : List (Bar F)) (d : Date) (c : Code) (codes : List Code)
      (table : List Status) {b : Bar F} {window : List (Bar F)} {table' : List Status} {n : ℕ}
      → elem c (pool_codes_on pool d) ≡ true
      → elem c (bar_codes (day_bars d bars)) ≡ false
      → in_window d bars ≡ b ∷ window
      → elem c codes ≡ true
      → compute_trade_status pool bars d table ≡ (table', n)
      → (price : Option F)
      → let (sell_ok, buy_ok) = fetch_tradability (engine_rows table') codes d in
        let why = λ (r : Reason). if no_price price then no_open_price else r in
        (match_fill sell price (get_or true (lookup c sell_ok))
          ≡ ok (defer, some (why sell_blocked)))
        × (match_fill buy price (get_or true (lookup c buy_ok)) ≡ ok (skip, some (why buy_blocked)))
  unfolding compute_trade_status fetch_tradability match_fill
  compute_trade_status-suspended pool bars d c [] table listed dark w asked e price = ground arith
  compute_trade_status-suspended pool bars d c (k ∷ codes) table listed dark w asked e price =
      let flag =
        λ (column : TradeStatus → ℕ). suspended_flag column pool bars d c (k ∷ codes) table in
      let sell_flag =
        flag (λ r. r.sell_tradable) (λ s t. refl) (λ st_codes b. refl) listed dark asked in
      let buy_flag =
        flag (λ r. r.buy_tradable) (λ s t. refl) (λ st_codes b. refl) listed dark asked in
      ground (arith, w, e, sell_flag, buy_flag)
