-- ===== src/Paper/Accounts.antt =====
-- The administration of the paper accounts: `create_account`, `set_status`, `paper_tick_all` and
-- `cleanup_account` of backend/app/services/paper_service.py.
use stock_platform.Prelude.{
  ℕ, ◌+◌, ◌==◌, ◌||◌, Bool, true, false, not, if◌then◌else◌, Option, none, some, List, [], ◌∷◌,
  ◌++◌, keep,
}
use stock_platform.Prelude.Result.{Result, ok, err, value_error, ◌>>=◌, or_raise}
use stock_platform.Calendar.{Date}
use stock_platform.Float.{Float}
use stock_platform.Paper.Tables.{
  Db, Account, AccountStatus, active, paused, stopped, Config, Nav, Trade, set_account, Order,
  Position, Check,
}
use stock_platform.Paper.Orders.{Signals}
use stock_platform.Paper.Tick.{Report, skipped, already_done, ticked, find_account, paper_tick}

pub data Action : Type 0 where
  pause resume stop : Action
  other_action : Action

pub record Totals : Type 0 where
  pub ticks : ℕ
  pub fills : ℕ
  pub alerts : ℕ

abbrev status_after : Action → Result AccountStatus
status_after pause = ok paused
status_after resume = ok active
status_after stop = ok stopped
status_after other_action = err value_error

module _ {F : Type 0} where
  unfoldable pub set_status : Db F → ℕ → Action → Result (Db F)
  set_status db id action = do
    status ← status_after action
    a ← or_raise (find_account id db.accounts) value_error
    ok (record db { accounts = set_account (record a { status = status }) db.accounts })

  -- The children first.
  unfoldable pub cleanup_account : Db F → ℕ → Db F
  cleanup_account db id = record db {
    checks = keep (λ (c : Check F). not (c.account_id == id)) db.checks;
    navs = keep (λ (v : Nav F). not (v.account_id == id)) db.navs;
    positions = keep (λ (p : Position F). not (p.account_id == id)) db.positions;
    trades = keep (λ (t : Trade F). not (t.account_id == id)) db.trades;
    orders = keep (λ (o : Order F). not (o.account_id == id)) db.orders;
    accounts = keep (λ (a : Account F). not (a.id == id)) db.accounts;
  }

  abbrev is_active : Account F → Bool
  is_active a = elim a.status [ active ↦ true | paused ↦ false | stopped ↦ false ]

  -- A tick that was done before counts as one.
  abbrev add_report : Report F → Totals → Totals
  add_report (skipped _) t = t
  add_report already_done t = record t { ticks = t.ticks + 1 }
  add_report (ticked fills signal alerts total_asset) t = record {
    ticks = t.ticks + 1;
    fills = t.fills + fills;
    alerts = t.alerts + alerts;
  }

module _ {F : Type 0} ⦃fl : Float F⦄ where
  -- A config names factors, or a preset that is known.
  unfoldable pub create_account :
      ℕ
      → Config F
      → (has_factors preset_is_known : Bool) → Option Date
      → Date
      → Db F
      → Result (Db F × ℕ)
  create_account name config has_factors preset_is_known start today db =
      let cash = fl.round config.initial_cash 2 in
      let account : Account F = record {
        id = db.next_account;
        name = name;
        config = record config { start = elim start [ none ↦ today | some d ↦ d ] };
        initial_cash = cash;
        cash = cash;
        status = active;
      } in
      let added = record db {
        accounts = db.accounts ++ (account ∷ []);
        next_account = db.next_account + 1;
      } in
      if has_factors || preset_is_known then ok (added, db.next_account) else err value_error

  abbrev tick_days : Signals F → ℕ → List Date → Db F → Totals → Result (Db F × Totals)
  tick_days s id [] db t = ok (db, t)
  tick_days s id (d ∷ days) db t = do
    res ← paper_tick s db id d
    tick_days s id days res.0 (add_report res.1 t)

  abbrev tick_accounts :
      Signals F → List (Account F) → List Date → Db F → Totals → Result (Db F × Totals)
  tick_accounts s [] days db t = ok (db, t)
  tick_accounts s (a ∷ accounts) days db t = do
    res ← tick_days s a.id days db t
    tick_accounts s accounts days res.0 res.1

  -- The accounts that are active at first, each over all days.
  unfoldable pub paper_tick_all : Signals F → List Date → Date → Db F → Result (Db F × Totals)
  paper_tick_all s dates today db =
      let days : List Date = elim dates [ [] ↦ today ∷ [] | d ∷ (ds → _) ↦ d ∷ ds ] in
      tick_accounts s (keep is_active db.accounts) days db
        (record { ticks = 0; fills = 0; alerts = 0 })
