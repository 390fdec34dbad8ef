-- ===== src/Paper/Tick.antt =====
-- The daily tick of one account: `paper_tick` of backend/app/services/paper_service.py.
use stock_platform.Prelude.{
  ℕ, ◌+◌, ◌-◌, ◌==◌, ◌&&◌, Bool, true, false, ltb, leb, if◌then◌else◌, Option, none, some, List, [],
  ◌∷◌, ◌++◌, keep, length, first,
}
use stock_platform.Prelude.Dict.{Dict, lookup, get_or, keys, insert_all}
use stock_platform.Prelude.Result.{Result, ok, value_error, ◌>>=◌, or_raise}
use stock_platform.Calendar.{Date}
use stock_platform.Cost.{CostParams, default_cost}
use stock_platform.Float.{Float, ◌⊕◌, ◌⊖◌, ◌⊗◌, ◌<?◌, nought, unit, is_zero, divide, max, sum}
use stock_platform.Execution.{Code, buy, sell, other, Quotes, fetch_quotes, open_values}
use stock_platform.Paper.Tables.{
  Db, Account, AccountStatus, active, paused, stopped, Config, Order, OrderStatus, pending,
  Position, Nav, Check, CheckStatus, pass, Metric, set_account,
}
use stock_platform.Paper.Tables
use stock_platform.Paper.Match.{Market, Book, match_orders}
use stock_platform.Paper.Reads.{
  positions_latest, shares_of, closes_of, closes_on, benchmark_close, ensure_rules, rule_check,
}
use stock_platform.Paper.Tripwire.{corporate_action_alerts}
use stock_platform.Paper.Orders.{Signals, Signal, signal_pass}

-- What `paper_tick` returns.
pub data Report (F : Type 0) : Type 0 where
  skipped : AccountStatus → Report F
  already_done : Report F
  ticked : (fills : ℕ) (signal : Signal) (alerts : ℕ) (total_asset : F) → Report F

module _ {F : Type 0} where
  abbrev pub is_pending : Order F → Bool
  is_pending o = elim o.status [ Tables.pending ↦ true | _ ↦ false ]

  abbrev is_sell : Order F → Bool
  is_sell o = elim o.side [ buy ↦ false | sell ↦ true | other ↦ false ]

  abbrev is_buy : Order F → Bool
  is_buy o = elim o.side [ buy ↦ true | sell ↦ false | other ↦ false ]

  -- The pending orders that are due, in the order of their ids.
  abbrev pub due_orders : Db F → ℕ → Date → List (Order F)
  due_orders db account d =
      keep
        (λ (o : Order F).
          o.account_id == account && is_pending o && leb o.exec_date d && ltb o.signal_date d)
        db.orders

  abbrev order_codes : List (Order F) → List Code
  order_codes [] = []
  order_codes (o ∷ os) = o.stock_code ∷ order_codes os

  abbrev pub find_account : ℕ → List (Account F) → Option (Account F)
  find_account id = first (λ (a : Account F). a.id == id)

  abbrev is_active : Account F → Bool
  is_active a = elim a.status [ active ↦ true | paused ↦ false | stopped ↦ false ]

  -- A NAV row of the account on the day.
  abbrev pub has_nav : ℕ → Date → List (Nav F) → Bool
  has_nav account d [] = false
  has_nav account d (n ∷ navs) =
      let rest = has_nav account d navs in
      if n.account_id == account && n.trade_date == d then true else rest

module _ {F : Type 0} ⦃fl : Float F⦄ where
  abbrev pub cost_of : Config F → CostParams F
  cost_of cfg = elim cfg.cost [ none ↦ default_cost | some p ↦ p ]

  abbrev book_of : Db F → F → Dict ℕ → Book F
  book_of db cash holdings = record {
    cash = cash;
    holdings = holdings;
    orders = db.orders;
    trades = db.trades;
    next_trade = db.next_trade;
    traded_value = nought;
    fills = 0;
  }

  abbrev with_book : Db F → Book F → Db F
  with_book db b = record db { orders = b.orders; trades = b.trades; next_trade = b.next_trade }

  abbrev turnover_checks : Db F → ℕ → Date → F → F → Result (List (Check F))
  turnover_checks db account d traded nav_before =
      let raised = do
        turnover ← divide traded (fl.literal 2 0 ⊗ nav_before)
        check ← rule_check account d Metric.turnover turnover db.rules
        ok (check ∷ [])
      in if nought <? traded && nought <? nav_before then raised else ok []

  abbrev market_of : ℕ → Date → Config F → Quotes F → Market F
  market_of account d cfg quotes = record {
    account_id = account;
    day = d;
    params = cost_of cfg;
    quotes = quotes;
  }

  -- Segment ①: nothing is fetched where no order is due.
  unfoldable pub match_pending :
      Db F → ℕ → Date → Config F → F → Dict ℕ → Dict F → Result (Book F × List (Check F))
  match_pending db account d cfg cash holdings last_close =
      let pending = due_orders db account d in
      let matched = do
        let involved = order_codes pending ++ keys holdings
        let quotes = fetch_quotes db.prices db.trade_status involved d
        let m = market_of account d cfg quotes
        let nav_before =
            cash
            ⊕ sum (open_values quotes.opens (λ c. get_or nought (lookup c last_close)) holdings)
        b ←
            match_orders m cfg.top_n (keep is_sell pending) (keep is_buy pending)
              (book_of db cash holdings)
        checks ← turnover_checks db account d b.traded_value nav_before
        ok (b, checks)
      in elim pending [ [] ↦ ok (book_of db cash holdings, []) | _ ∷ _ ↦ matched ]

  -- Pending sells of two weeks and more.
  abbrev stuck_sell : Db F → ℕ → Date → Option (Order F)
  stuck_sell db account d =
      first
        (λ (o : Order F).
          o.account_id == account && is_pending o && is_sell o && leb (o.signal_date + 14) d)
        db.orders

  unfoldable pub stuck_checks : Db F → ℕ → Date → Result (List (Check F))
  stuck_checks db account d = elim (stuck_sell db account d) [
    | none ↦ ok []
    | some o ↦ do
      check ← rule_check account d Metric.sell_stuck (fl.of_ℕ (d - o.signal_date)) db.rules
      ok (check ∷ [])
  ]

  abbrev close_value : Dict F → Code → ℕ → F
  close_value closes c sh = fl.of_ℕ sh ⊗ get_or nought (lookup c closes)

  abbrev close_values : Dict F → Dict ℕ → List F
  close_values closes [] = []
  close_values closes ((c, sh) ∷ holdings) = close_value closes c sh ∷ close_values closes holdings

  abbrev snapshot : ℕ → Date → Dict F → Dict ℕ → List (Position F)
  snapshot account d closes [] = []
  snapshot account d closes ((c, sh) ∷ holdings) =
      record {
        account_id = account;
        trade_date = d;
        stock_code = c;
        shares = sh;
        close_price = fl.round (get_or nought (lookup c closes)) 4;
        market_value = fl.round (close_value closes c sh) 2;
      }
      ∷ snapshot account d closes holdings

  abbrev navs_before : Db F → ℕ → Date → List (Nav F)
  navs_before db account d =
      keep (λ (n : Nav F). n.account_id == account && ltb n.trade_date d) db.navs

  abbrev later_nav : Option (Nav F) → Nav F → Option (Nav F)
  later_nav none n = some n
  later_nav (some m) n = if ltb m.trade_date n.trade_date then some n else some m

  abbrev last_nav : List (Nav F) → Option (Nav F)
  last_nav [] = none
  last_nav (n ∷ navs) = later_nav (last_nav navs) n

  abbrev peak_of : List (Nav F) → Option F
  peak_of [] = none
  peak_of (n ∷ navs) = elim (peak_of navs) [ none ↦ some n.nav | some p ↦ some (max p n.nav) ]

  -- `float(max(nav) or 1.0)`
  abbrev pub prev_peak : List (Nav F) → F
  prev_peak navs = elim (peak_of navs) [ none ↦ unit | some p ↦ if is_zero p then unit else p ]

  abbrev prev_total : F → List (Nav F) → F
  prev_total initial navs = elim (last_nav navs) [ none ↦ initial | some n ↦ n.total_asset ]

  abbrev daily_return : F → F → Result (Option F)
  daily_return total before =
      let ret = do r ← divide total before; ok (some (fl.round (r ⊖ unit) 8))
      in if is_zero before then ok none else ret

  abbrev round_close : Option F → Option F
  round_close none = none
  round_close (some c) = some (fl.round c 4)

  -- Segment ③: the NAV row of the day and the drawdown check.
  unfoldable pub value_day : Db F → Account F → Date → F → F → Result (Nav F × Check F)
  value_day db a d cash market_value = do
    let total_asset = cash ⊕ market_value
    let before = navs_before db a.id d
    nav ← divide total_asset a.initial_cash
    let peak = max (prev_peak before) nav
    ret ← daily_return total_asset (prev_total a.initial_cash before)
    share ← divide nav peak
    let down = share ⊖ unit
    check ← rule_check a.id d Metric.drawdown (fl.neg down) db.rules
    let row : Nav F = record {
      account_id = a.id;
      trade_date = d;
      cash = fl.round cash 2;
      market_value = fl.round market_value 2;
      total_asset = fl.round total_asset 2;
      nav = fl.round nav 6;
      daily_ret = ret;
      benchmark_close = round_close (benchmark_close db a.config.benchmark d);
      drawdown = some (fl.round down 6);
    }
    ok (row, check)

  abbrev not_pass : Check F → Bool
  not_pass c = elim c.status [ pass ↦ false | _ ↦ true ]

  -- The tripwire's call: with the closes of the snapshot, before those of the day are fetched.
  abbrev pub tripped_checks : Db F → ℕ → Date → Dict (ℕ × F) → Book F → Result (List (Check F))
  tripped_checks db account d snap b =
      corporate_action_alerts (with_book db b) account d b.holdings (closes_of snap)

  -- The tick past its guards.
  unfoldable pub run_tick : Signals F → Db F → Account F → Date → Result (Db F × Report F)
  run_tick s db0 a d = do
    let snap = positions_latest db0 a.id d
    let db = ensure_rules db0
    (b, matched) ← match_pending db a.id d a.config a.cash (shares_of snap) (closes_of snap)
    let db1 = with_book db b
    tripped ← tripped_checks db a.id d snap b
    let closes = insert_all (closes_on db1.prices (keys b.holdings) d) (closes_of snap)
    (db2, signalled, signal) ← signal_pass s db1 a.id d b.holdings a.config closes b.cash
    stuck ← stuck_checks db2 a.id d
    let market_value = sum (close_values closes b.holdings)
    (row, check) ← value_day db2 a d b.cash market_value
    let alerts = matched ++ (tripped ++ (signalled ++ (stuck ++ (check ∷ []))))
    let db3 = record db2 {
      positions = db2.positions ++ snapshot a.id d closes b.holdings;
      navs = db2.navs ++ (row ∷ []);
      checks = db2.checks ++ alerts;
      accounts = set_account (record a { cash = fl.round b.cash 2 }) db2.accounts;
    }
    let report =
        ticked b.fills signal (length (keep not_pass alerts)) (fl.round (b.cash ⊕ market_value) 2)
    ok (db3, report)

  abbrev pub tick_account : Signals F → Db F → Date → Account F → Result (Db F × Report F)
  tick_account s db d a =
      if is_active a
      then (if has_nav a.id d db.navs then ok (db, already_done) else run_tick s db a d)
      else ok (db, skipped a.status)

  unfoldable pub paper_tick : Signals F → Db F → ℕ → Date → Result (Db F × Report F)
  unfolding run_tick
  paper_tick s db id d = do
    a ← or_raise (find_account id db.accounts) value_error
    tick_account s db d a
