-- ===== src/Paper/Orders.antt =====
-- The signal pass: `_create_orders` and `_data_incomplete` of
-- backend/app/services/paper_service.py, and segment ② of `paper_tick`. The panel and the scoring of
-- targets rest on pandas and enter as parameters.
use stock_platform.Prelude.{
  ℕ, ◌+◌, ◌==◌, ◌&&◌, Bool, false, ltb, leb, if◌then◌else◌, Option, none, some, List, [], ◌∷◌, ◌++◌,
  keep, length,
}
use stock_platform.Prelude.Int.{ℤ}
use stock_platform.Prelude.Dict.{Dict, lookup}
use stock_platform.Prelude.Result.{Result, ok, ◌>>=◌}
use stock_platform.Calendar.{Date, next_weekday}
use stock_platform.Float.{Float, ◌⊗◌, ◌<?◌, unit, is_zero, divide}
use stock_platform.Execution.{Code, buy, sell, other, DailyPrice}
use stock_platform.Paper.Tables.{Db, Order, Config, Check, pending, data_incomplete, signal_empty}
use stock_platform.Paper.Analytics.{OrderIntent, diff_orders, insert_code, is_sell, is_buy}
use stock_platform.Paper.Calendar.{qualifies_rebalance}
use stock_platform.Paper.Reads.{flag}

-- What the signal pass takes from outside: today's date, whether a market panel loads and is not
-- empty, the settled row counts by day with the completeness ratio, and the targets of a day.
pub record Signals (F : Type 0) : Type 0 where
  pub today : Date
  pub panel_ready : Date → Date → Bool
  pub settled_counts : Dict ℕ
  pub completeness_ratio : F
  pub signal_targets : Config F → Date → Result (List Code)

-- What a signal pass came to.
pub data Signal : Type 0 where
  no_rebalance incomplete empty : Signal
  created : ℕ → Signal

abbrev greatest : ℕ → Dict ℕ → ℕ
greatest best [] = best
greatest best ((d, n) ∷ counts) = greatest (if ltb best n then n else best) counts

abbrev before_day : Date → Dict ℕ → Dict ℕ
before_day d = keep (λ (e : ℕ × ℕ). ltb e.0 d)

abbrev count_on : Option ℕ → ℕ
count_on none = 0
count_on (some n) = n

module _ {F : Type 0} where
  abbrev intent_of : Code → List (OrderIntent F) → Option (OrderIntent F)
  intent_of c [] = none
  intent_of c (i ∷ intents) =
      let rest = intent_of c intents in
      elim rest [ none ↦ (if c == i.stock_code then some i else none) | some j ↦ some j ]

  abbrev buys_by_rank : List (OrderIntent F) → List Code → List (OrderIntent F)
  buys_by_rank intents [] = []
  buys_by_rank intents (c ∷ targets) =
      let rest = buys_by_rank intents targets in
      elim (intent_of c (keep is_buy intents)) [ none ↦ rest | some i ↦ i ∷ rest ]

  -- Sells in the order of the diff, buys in the order of the targets.
  abbrev pub ordered_intents : List (OrderIntent F) → List Code → List (OrderIntent F)
  ordered_intents intents targets = keep is_sell intents ++ buys_by_rank intents targets

  abbrev pub trade_dates : List (DailyPrice F) → Date → Date → List Date
  trade_dates [] from upto = []
  trade_dates (r ∷ rows) from upto =
      let rest = trade_dates rows from upto in
      if leb from r.trade_date && leb r.trade_date upto then insert_code r.trade_date rest else rest

module _ {F : Type 0} ⦃fl : Float F⦄ where
  abbrev sell_shares : OrderIntent F → Option ℤ
  sell_shares i = elim i.side [ buy ↦ none | sell ↦ some i.est_shares | other ↦ none ]

  abbrev pub order_of : ℕ → ℕ → Date → OrderIntent F → Order F
  order_of id account d i = record {
    id = id;
    account_id = account;
    signal_date = d;
    exec_date = next_weekday d;
    stock_code = i.stock_code;
    side = i.side;
    target_weight = fl.round i.target_weight 6;
    shares = sell_shares i;
    status = pending;
    fail_reason = none;
    filled_trade_id = none;
  }

  unfoldable pub add_orders : ℕ → Date → List (OrderIntent F) → Db F → Db F
  add_orders account d [] db = db
  add_orders account d (i ∷ intents) db = add_orders account d intents (record db {
    orders = db.orders ++ (order_of db.next_order account d i ∷ []);
    next_order = db.next_order + 1;
  })

  -- `float(tol) if tol else 1e9`
  abbrev tolerance : Option F → F
  tolerance none = fl.literal 1_000_000_000 0
  tolerance (some t) = if is_zero t then fl.literal 1_000_000_000 0 else t

  abbrev equal_weights : F → List Code → Dict F
  equal_weights w [] = []
  equal_weights w (c ∷ targets) = (c, w) ∷ equal_weights w targets

  unfoldable pub create_orders :
      Db F → ℕ → Date → Dict ℕ → List Code → Config F → Dict F → F → Result (Db F × ℕ)
  unfolding add_orders
  create_orders db account d holdings targets cfg last_price cash = do
    w ← divide unit (fl.of_ℕ (length targets))
    intents ←
        diff_orders holdings (equal_weights w targets) last_price cash (tolerance cfg.rebalance_tol)
          (fl.literal 2 2)
    let ordered = ordered_intents intents targets
    ok (add_orders account d ordered db, length ordered)

  abbrev below_ratio : F → ℕ → Dict ℕ → Bool
  below_ratio ratio today_count [] = false
  below_ratio ratio today_count ((d, n) ∷ counts) =
      fl.of_ℕ today_count <? ratio ⊗ fl.of_ℕ (greatest n counts)

  -- Today's settled rows fall short of the best earlier day; past days are never incomplete.
  unfoldable pub data_is_incomplete : Signals F → Date → Bool
  data_is_incomplete s d =
      let counts = s.settled_counts in
      if d == s.today
      then below_ratio s.completeness_ratio (count_on (lookup d counts)) (before_day d counts)
      else false

  abbrev pub order_targets :
      Db F
      → ℕ
      → Date
      → Dict ℕ
      → Config F
      → Dict F
      → F
      → List Code
      → Result (Db F × List (Check F) × Signal)
  order_targets db account d holdings cfg closes cash [] =
      ok (db, flag account d signal_empty ∷ [], empty)
  order_targets db account d holdings cfg closes cash (c ∷ targets) = do
    (db', n) ← create_orders db account d holdings (c ∷ targets) cfg closes cash
    ok (db', [], created n)

  -- Segment ② of the tick.
  unfoldable pub signal_pass :
      Signals F
      → Db F
      → ℕ
      → Date
      → Dict ℕ
      → Config F
      → Dict F
      → F
      → Result (Db F × List (Check F) × Signal)
  signal_pass s db account d holdings cfg closes cash =
      let upto = if ltb d s.today then s.today else d in
      let dates = trade_dates db.prices cfg.start upto in
      let flagged = ok (db, flag account d data_incomplete ∷ [], incomplete) in
      let scored = do
        targets ← s.signal_targets cfg d
        order_targets db account d holdings cfg closes cash targets
      in let fresh = if data_is_incomplete s d then flagged else scored in
        if qualifies_rebalance d dates cfg.freq s.today && s.panel_ready cfg.start d
        then fresh
        else ok (db, [], no_rebalance)
