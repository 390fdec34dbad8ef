-- ===== src/Single/Trademap/Agreement.antt =====
-- Laws of `_build_trademap` (backend/app/services/backtest_service.py) beside `fetch_tradability`.
use stock_platform.Prelude.{
  ◌==◌, ◌≡◌, refl, arith, ◌&&◌, Bool, true, false, leb, Option, none, some, List, [], ◌∷◌, keep,
  elem, exists, Bool-cases, inl, inr,
}
use stock_platform.Prelude.Dict.{Dict, lookup, insert, insert_all, lookup-insert}
use stock_platform.Float.{Float}
use stock_platform.Calendar.{Date}
use stock_platform.Execution.{Code, TradeStatus, nonzero, fetch_tradability}
use stock_platform.Execution.{status_rows as flag_rows}
use stock_platform.Single.Trademap.{
  Bar, Allowed, allowed_by, dated_rows, status_by_date, last_date, allowed_on, fill_map,
  build_trademap,
}

module _ (c : Code) (d start end : Date) where
  abbrev both : Option Bool → Option Bool → Option Allowed
  both (some s) (some b) = some (record { buy = b; sell = s })
  both _ _ = none

  abbrev by_code : TradeStatus → Bool
  by_code r = r.trade_date == d && elem r.stock_code (c ∷ [])

  abbrev by_window : TradeStatus → Bool
  by_window r = r.stock_code == c && leb start r.trade_date && leb r.trade_date end

  -- Both ways to read a row keep the last one of the code and the day.
  reads_agree :
      (statuses : List TradeStatus) (sells buys : Dict Bool) (dates : Dict Allowed)
      → leb start d && leb d end ≡ true
      → lookup d dates ≡ both (lookup c sells) (lookup c buys)
      → lookup d (insert_all (dated_rows (keep by_window statuses)) dates)
        ≡ both
            (lookup c (insert_all (flag_rows (λ r. r.sell_tradable) (keep by_code statuses)) sells))
            (lookup c (insert_all (flag_rows (λ r. r.buy_tradable) (keep by_code statuses)) buys))
  reads_agree [] sells buys dates inside h = h
  reads_agree (r ∷ statuses) sells buys dates inside h =
      let sell_flag = nonzero r.sell_tradable in
      let buy_flag = nonzero r.buy_tradable in
      let dates1 = insert r.trade_date (allowed_by r) dates in
      elim (Bool-cases (by_code r)) [
        | inl k ↦
            let w : by_window r ≡ true = ground (arith, k, inside) in
            rw w (
              rw k (
                reads_agree statuses (insert r.stock_code sell_flag sells)
                  (insert r.stock_code buy_flag buys) dates1 inside
                  (ground (
                    arith,
                    k,
                    inside,
                    lookup-insert d r.trade_date (allowed_by r) dates,
                    lookup-insert c r.stock_code sell_flag sells,
                    lookup-insert c r.stock_code buy_flag buys,
                  ))))
        | inr k ↦ elim (Bool-cases (by_window r)) [
          | inl w ↦ rw w (
              rw k (
                reads_agree statuses sells buys dates1 inside
                  (ground (arith, k, w, h, lookup-insert d r.trade_date (allowed_by r) dates))))
          | inr w ↦ rw w (rw k (reads_agree statuses sells buys dates inside h))
        ]
      ]

  allowed_on-some :
      {F : Type 0} ⦃fl : Float F⦄ (status : Dict Allowed) (b : Bar F) {a : Allowed}
      → lookup d status ≡ some a
      → b.trade_date == d ≡ true
      → allowed_on status b ≡ a
  allowed_on-some status b e k = ground (arith, e, k)

  lookup-fill_map :
      {F : Type 0} ⦃fl : Float F⦄ (status : Dict Allowed) (bars : List (Bar F)) (out : Dict Allowed)
      {a : Allowed}
      → lookup d status ≡ some a
      → (exists (λ (b : Bar F). b.trade_date == d) bars ≡ false → lookup d out ≡ some a)
      → lookup d (fill_map status bars out) ≡ some a
  lookup-fill_map status [] out e h = h refl
  lookup-fill_map status (b ∷ bars) out e h =
      lookup-fill_map status bars (insert b.trade_date (allowed_on status b) out) e (λ later.
        elim (Bool-cases (b.trade_date == d)) [
          | inl k ↦ ground (
            arith,
            k,
            e,
            allowed_on-some status b e,
            lookup-insert d b.trade_date (allowed_on status b) out,
          )
          | inr k ↦
              ground (arith, k, h, later, lookup-insert d b.trade_date (allowed_on status b) out)
        ])

-- On a day of the window with a bar, where the execution layer reads both permissions of the stock
-- from a status row, the backtest's map holds exactly these.
pub build_trademap-fetch_tradability :
    {F : Type 0} ⦃fl : Float F⦄ (statuses : List TradeStatus) (c : Code) (b : Bar F)
    (bars : List (Bar F)) (d : Date) {s t : Bool}
    → exists (λ (x : Bar F). x.trade_date == d) (b ∷ bars) ≡ true
    → leb b.trade_date d && leb d (last_date b.trade_date bars) ≡ true
    → lookup c (fetch_tradability statuses (c ∷ []) d).0 ≡ some s
    → lookup c (fetch_tradability statuses (c ∷ []) d).1 ≡ some t
    → lookup d (build_trademap statuses c (b ∷ bars)) ≡ some (record { buy = t; sell = s })
unfolding build_trademap fetch_tradability
build_trademap-fetch_tradability statuses c b bars d traded inside es et =
    let last = last_date b.trade_date bars in
    let status = status_by_date statuses c b.trade_date last in
    let agree = reads_agree c d b.trade_date last statuses [] [] [] inside refl in
    lookup-fill_map c d b.trade_date last status (b ∷ bars) [] (ground (arith, agree, es, et))
      (λ none_left. ground (arith, none_left, traded))
