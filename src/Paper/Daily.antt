-- ===== src/Paper/Daily.antt =====
-- One tick a day: what a tick of backend/app/services/paper_service.py leaves behind makes a second
-- tick of the same day do nothing.
use stock_platform.Prelude.{
  ℕ, ◌≡◌, refl, sym, ap, ◌∙◌, Bool, true, false, Option, none, some, List, [], ◌∷◌, ◌++◌, arith,
  Option-cases, inl, inr,
}
use stock_platform.Prelude.Dict.{Dict}
use stock_platform.Prelude.Result.{ok, Result-cases}
use stock_platform.Calendar.{Date}
use stock_platform.Float.{Float}
use stock_platform.Execution.{Code}
use stock_platform.Paper.Tables.{Db, Account, active, Config, Nav, Check, set_account}
use stock_platform.Paper.Analytics.{OrderIntent}
use stock_platform.Paper.Reads.{ensure_rules}
use stock_platform.Paper.Orders.{
  Signals, Signal, add_orders, create_orders, order_targets, signal_pass,
}
use stock_platform.Paper.Tick.{
  Report, already_done, find_account, has_nav, value_day, run_tick, tick_account, paper_tick,
}

module _ {F : Type 0} where
  find_account_id :
      (id : ℕ) (accts : List (Account F)) {a : Account F}
      → find_account id accts ≡ some a
      → a.id ≡ id
  find_account_id id [] h = cc
  find_account_id id (b ∷ accts) {a} h = ground (arith, find_account_id id accts {a = a})

  find_account-set_account :
      (id : ℕ) (accts : List (Account F)) (a a' : Account F)
      → find_account id accts ≡ some a
      → a'.id ≡ id
      → find_account id (set_account a' accts) ≡ some a'
  find_account-set_account id [] a a' h e = cc
  find_account-set_account id (b ∷ accts) a a' h e =
      ground (arith, find_account-set_account id accts a a')

  has_nav-append :
      (account : ℕ) (d : Date) (navs : List (Nav F)) (n : Nav F)
      → n.account_id ≡ account
      → n.trade_date ≡ d
      → has_nav account d (navs ++ (n ∷ [])) ≡ true
  has_nav-append account d [] n e f = ground arith
  has_nav-append account d (m ∷ navs) n e f = ground (arith, has_nav-append account d navs n e f)

  -- A pass that leaves the accounts and the NAV rows alone.
  abbrev Keeps : Db F → Db F → Type 0
  Keeps db db' = (db'.accounts ≡ db.accounts) × (db'.navs ≡ db.navs)

module _ {F : Type 0} ⦃fl : Float F⦄ where
  add_orders-Keeps :
      (account : ℕ) (d : Date) (is : List (OrderIntent F)) (db : Db F)
      → Keeps db (add_orders account d is db)
  unfolding add_orders
  add_orders-Keeps account d [] db = (refl, refl)
  add_orders-Keeps account d (i ∷ is) db = add_orders-Keeps account d is _

  create_orders-Keeps :
      (db : Db F) (account : ℕ) (d : Date) (h : Dict ℕ) (targets : List Code) (cfg : Config F)
      (closes : Dict F) (cash : F) {v : Db F × ℕ}
      → create_orders db account d h targets cfg closes cash ≡ ok v
      → Keeps db v.0
  unfolding create_orders
  create_orders-Keeps db account d h targets cfg closes cash e = grind (arith, add_orders-Keeps)

  order_targets-Keeps :
      (db : Db F) (account : ℕ) (d : Date) (h : Dict ℕ) (cfg : Config F) (closes : Dict F)
      (cash : F) (targets : List Code) {v : Db F × List (Check F) × Signal}
      → order_targets db account d h cfg closes cash targets ≡ ok v
      → Keeps db v.0
  order_targets-Keeps db account d h cfg closes cash [] e = ground arith
  order_targets-Keeps db account d h cfg closes cash (c ∷ targets) e =
      grind (arith, create_orders-Keeps)

  signal_pass-Keeps :
      (s : Signals F) (db : Db F) (account : ℕ) (d : Date) (h : Dict ℕ) (cfg : Config F)
      (closes : Dict F) (cash : F) {v : Db F × List (Check F) × Signal}
      → signal_pass s db account d h cfg closes cash ≡ ok v
      → Keeps db v.0
  unfolding signal_pass
  signal_pass-Keeps s db account d h cfg closes cash {v} e =
      elim (Result-cases (s.signal_targets cfg d)) [
        | inl (targets, t) ↦
            ground (arith, order_targets-Keeps db account d h cfg closes cash targets {v = v})
        | inr (f, t) ↦ ground arith
      ]

  value_day-key :
      (db : Db F) (a : Account F) (d : Date) (cash market_value : F) {v : Nav F × Check F}
      → value_day db a d cash market_value ≡ ok v
      → (v.0.account_id ≡ a.id) × (v.0.trade_date ≡ d)
  unfolding value_day
  value_day-key db a d cash market_value e = grind arith

  -- The account is there, and is active.
  abbrev active_account : Option (Account F) → Bool
  active_account none = false
  active_account (some a) = elim a.status [ active ↦ true | _ ↦ false ]

  ensure_rules-Keeps : (db : Db F) → Keeps db (ensure_rules db)
  unfolding ensure_rules
  ensure_rules-Keeps db = ground arith

  run_tick-nav :
      (s : Signals F) (db : Db F) (a : Account F) (d : Date) {v : Db F × Report F}
      → run_tick s db a d ≡ ok v
      → has_nav a.id d v.0.navs ≡ true
  unfolding run_tick
  run_tick-nav s db a d e = grind (arith, value_day-key, has_nav-append)

  run_tick-account :
      (s : Signals F) (db : Db F) (a : Account F) (d : Date) {v : Db F × Report F}
      → run_tick s db a d ≡ ok v
      → find_account a.id db.accounts ≡ some a
      → active_account (some a) ≡ true
      → active_account (find_account a.id v.0.accounts) ≡ true
  unfolding run_tick
  run_tick-account s db a d e h t =
      grind (arith, ensure_rules-Keeps, signal_pass-Keeps, find_account-set_account)

  paper_tick_lem :
      (s : Signals F) (db : Db F) (id : ℕ) (d : Date) {a : Account F}
      → find_account id db.accounts ≡ some a
      → paper_tick s db id d ≡ tick_account s db d a
  unfolding paper_tick
  paper_tick_lem s db id d h = rw h

  -- After a tick the day has its NAV row and the account is still active.
  tick_account_done :
      (s : Signals F) (db : Db F) (a : Account F) (d : Date) {v : Db F × Report F}
      → find_account a.id db.accounts ≡ some a
      → active_account (some a) ≡ true
      → tick_account s db d a ≡ ok v
      → (has_nav a.id d v.0.navs ≡ true) × (active_account (find_account a.id v.0.accounts) ≡ true)
  tick_account_done s db a d h t e = grind (arith, run_tick-nav, run_tick-account)

  already_done_lem :
      (s : Signals F) (db : Db F) (id : ℕ) (d : Date)
      → has_nav id d db.navs ≡ true
      → active_account (find_account id db.accounts) ≡ true
      → paper_tick s db id d ≡ ok (db, already_done)
  already_done_lem s db id d n t = elim (Option-cases (find_account id db.accounts)) [
    | inl e ↦ ground arith
    | inr (a, e) ↦
        rw (paper_tick_lem s db id d e) (ground (arith, find_account_id id db.accounts {a = a} e))
  ]

  -- If a tick of an active account returns, then a second tick of the same day, whatever signals it
  -- is given, answers `already_done` and changes nothing.
  pub paper_tick_idempotent :
      (s s' : Signals F) (db : Db F) (id : ℕ) (d : Date) {a : Account F} {v : Db F × Report F}
      → find_account id db.accounts ≡ some a
      → a.status ≡ active
      → paper_tick s db id d ≡ ok v
      → paper_tick s' v.0 id d ≡ ok (v.0, already_done)
  paper_tick_idempotent s s' db id d {a} {v} h t e =
      let same : a.id ≡ id = find_account_id id db.accounts h in
      let (row, alive) =
        tick_account_done s db a d {v = v} (ap (λ k. find_account k db.accounts) same ∙ h)
          (ground arith) (sym (paper_tick_lem s db id d h) ∙ e) in
      already_done_lem s' v.0 id d (rw (← same) row) (rw (← same) alive)
