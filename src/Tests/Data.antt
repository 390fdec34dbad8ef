-- ===== src/Tests/Data.antt =====
-- A small market and account: backend/tests/test_paper_engine.py works on the like.
use stock_platform.Prelude.{ℕ, true, none, some, List, [], ◌∷◌}
use stock_platform.Prelude.Int.{pos}
use stock_platform.Prelude.Dict.{Dict}
use stock_platform.Prelude.Result.{ok}
use stock_platform.Calendar.{Date}
use stock_platform.Cost.{CostParams, default_cost}
use stock_platform.Float.{Fixed, fixed, fixed_float}
use stock_platform.Execution.{Code, Side, buy, sell, Quotes, DailyPrice}
use stock_platform.Paper.{Order, Account, active, every, pending, Db}
use stock_platform.Paper.Match.{Market, Book}
use stock_platform.Paper.Orders.{Signals}
use stock_platform.Backtest.Match.{Portfolio}

-- Wednesday, 9 September 2026.
abbrev pub today : Date
today = 739868

-- 600000 opens at 10 and 600036 at 5; 600519 has no open price.
abbrev pub quotes : Quotes Fixed
quotes = record {
  opens = (600000, fixed 10) ∷ (600036, fixed 5) ∷ [];
  sell_ok = (600000, true) ∷ [];
  buy_ok = [];
}

abbrev pub params : CostParams Fixed
params = default_cost

abbrev pub market : Market Fixed
market = record { account_id = 1; day = today; params = params; quotes = quotes }

abbrev pub order : ℕ → Side → Code → Order Fixed
order id side code = record {
  id = id;
  account_id = 1;
  signal_date = 739867;
  exec_date = today;
  stock_code = code;
  side = side;
  target_weight = pos 5000;
  shares = none;
  status = pending;
  fail_reason = none;
  filled_trade_id = none;
}

abbrev pub sells : List (Order Fixed)
sells = order 1 sell 600000 ∷ []

abbrev pub buys : List (Order Fixed)
buys = order 2 buy 600036 ∷ order 3 buy 600519 ∷ []

abbrev pub holdings : Dict ℕ
holdings = (600000, 500) ∷ []

abbrev pub book : Book Fixed
book = record {
  cash = fixed 1000;
  holdings = holdings;
  orders = order 1 sell 600000 ∷ buys;
  trades = [];
  next_trade = 1;
  traded_value = pos 0;
  fills = 0;
}

abbrev pub portfolio : Portfolio Fixed
portfolio = record {
  cash = fixed 1000;
  holdings = holdings;
  reb_cost = pos 0;
  sells = [];
  buys = [];
}

abbrev pub targets : List Code
targets = 600036 ∷ 600519 ∷ []

abbrev pub account : Account Fixed
account = record {
  id = 1;
  name = 7;
  config = record {
    top_n = 2;
    freq = every (pos 1);
    initial_cash = fixed 6000;
    benchmark = 1;
    cost = none;
    rebalance_tol = none;
    start = 739860;
  };
  initial_cash = fixed 6000;
  cash = fixed 1000;
  status = active;
}

abbrev price : Code → ℕ → DailyPrice Fixed
price c p = record {
  stock_code = c;
  trade_date = today;
  open_price = some (fixed p);
  close_price = some (fixed p);
}

abbrev pub db : Db Fixed
db = record {
  accounts = account ∷ [];
  next_account = 2;
  orders = order 1 sell 600000 ∷ order 2 buy 600036 ∷ order 3 buy 600519 ∷ [];
  next_order = 4;
  trades = [];
  next_trade = 1;
  positions =
      record {
        account_id = 1;
        trade_date = 739867;
        stock_code = 600000;
        shares = 500;
        close_price = fixed 10;
        market_value = fixed 5000;
      }
      ∷ [];
  navs = [];
  checks = [];
  rules = [];
  prices = price 600000 10 ∷ price 600036 5 ∷ [];
  trade_status = [];
  index_quotes = [];
  adjust_factors = [];
  klines = [];
}

abbrev pub signals : Signals Fixed
signals = record {
  today = today;
  panel_ready = λ _ _. true;
  settled_counts = [];
  completeness_ratio = pos 9000;
  signal_targets = λ _ _. ok targets;
}
