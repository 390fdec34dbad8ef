-- ===== src/Paper/Curve.antt =====
-- The curve of a paper account: `nav_history` of backend/app/services/paper_service.py and `attribution` of
-- backend/app/services/paper_analytics.py.
pub mod Fees
use stock_platform.Prelude.{
  ℕ, ◌+◌, ◌==◌, ◌&&◌, ◌||◌, Bool, true, false, leb, not, if◌then◌else◌, Option, none, some, List,
  [], ◌∷◌, ◌++◌, keep, first, length,
}
use stock_platform.Prelude.Sort.{sort_on}
use stock_platform.Prelude.Result.{Result, ok, err, value_error, type_error, ◌>>=◌, or_raise}
use stock_platform.Calendar.{Date}
use stock_platform.Float.{Float, ◌⊕◌, ◌⊖◌, ◌⊗◌, nought, unit, is_zero}
use stock_platform.Paper.Tables.{
  Db, Account, AccountStatus, active, paused, stopped, Config, Nav, Trade, set_account, Order,
  Position, Check,
}
use stock_platform.Paper.Orders.{Signals}
use stock_platform.Paper.Tick.{Report, skipped, already_done, ticked, find_account, paper_tick}

-- A point of the curve.
pub record Point (F : Type 0) : Type 0 where
  pub trade_date : Date
  pub nav : F
  pub daily_ret : Option F
  pub benchmark_nav : Option F
  pub drawdown : Option F

pub record Attribution (F : Type 0) : Type 0 where
  pub excess : F
  pub cost_drag : F
  pub cash_drag : F
  pub selection : F

abbrev last_of {ℓ} : {A : Type ℓ} → A → List A → A
last_of x [] = x
last_of x (y ∷ ys) = last_of y ys

module _ {F : Type 0} where
  abbrev is_own : ℕ → Option Date → Date → Nav F → Bool
  is_own id start end v =
      v.account_id == id
      && leb v.trade_date end
      && (elim start [ none ↦ true | some d ↦ leb d v.trade_date ])

  abbrev nav_date : Nav F → Date
  nav_date v = v.trade_date

  abbrev or_one : F → List F → List F
  or_one one [] = one ∷ []
  or_one one (x ∷ xs) = x ∷ xs

  abbrev or_one_bench : F → List (Option F) → List (Option F)
  or_one_bench one [] = some one ∷ []
  or_one_bench one (x ∷ xs) = x ∷ xs

  abbrev nav_values : List (Nav F) → List F
  nav_values [] = []
  nav_values (v ∷ rows) = v.nav ∷ nav_values rows

module _ {F : Type 0} ⦃fl : Float F⦄ where
  -- The first benchmark close that is there and not zero.
  abbrev base_bench : List (Nav F) → Option F
  base_bench [] = none
  base_bench (v ∷ rows) =
      let rest = base_bench rows in
      elim v.benchmark_close [ none ↦ rest | some b ↦ if is_zero b then rest else some b ]

  abbrev over : Option F → Option F → Option F
  over (some b) (some base) = some (fl.div b base)
  over _ _ = none

  abbrev bench_navs : Option F → List (Nav F) → List (Option F)
  bench_navs base [] = []
  bench_navs base (v ∷ rows) = over v.benchmark_close base ∷ bench_navs base rows

  abbrev cash_weights : List (Nav F) → List F
  cash_weights [] = []
  cash_weights (v ∷ rows) =
      (if is_zero v.total_asset then nought else fl.div v.cash v.total_asset) ∷ cash_weights rows

  abbrev points : Option F → List (Nav F) → List (Point F)
  points base [] = []
  points base (v ∷ rows) =
      record {
        trade_date = v.trade_date;
        nav = v.nav;
        daily_ret = v.daily_ret;
        benchmark_nav = over v.benchmark_close base;
        drawdown = v.drawdown;
      }
      ∷ points base rows

  abbrev pub fees_of : Option (Trade F) → F
  fees_of none = nought
  fees_of (some t) = t.commission ⊕ t.stamp_duty ⊕ t.transfer_fee

  -- `.scalar()` of a query without an aggregate: the fees of its first row.
  abbrev pub cum_fees : ℕ → List (Trade F) → F
  cum_fees id trades = fees_of (first (λ (t : Trade F). t.account_id == id) trades)

  -- A missing value is no operand.
  abbrev quotient : Option F → Option F → Result F
  quotient (some a) (some b) = ok (fl.div a b)
  quotient _ _ = err type_error

  abbrev is_nought : Option F → Bool
  is_nought none = false
  is_nought (some x) = is_zero x

  abbrev add_cash_drag : F → Option F → List F → List (Option F) → Result F
  add_cash_drag acc prev [] bench = ok acc
  add_cash_drag acc prev (w ∷ weights) [] = ok acc
  add_cash_drag acc prev (w ∷ weights) (b ∷ bench) =
      let same = add_cash_drag acc b weights bench in
      let more = do r ← quotient b prev; add_cash_drag (acc ⊕ w ⊗ (r ⊖ unit)) b weights bench
      in if is_nought prev then same else more

  abbrev no_attribution : Attribution F
  no_attribution = record {
    excess = nought;
    cost_drag = nought;
    cash_drag = nought;
    selection = nought;
  }

  unfoldable pub attribution : List F → List (Option F) → F → List F → F → Result (Attribution F)
  attribution [] bench fees weights initial_cash = ok no_attribution
  attribution (n ∷ nav) [] fees weights initial_cash = ok no_attribution
  attribution (n ∷ nav) (b ∷ bench) fees [] initial_cash = ok no_attribution
  attribution (n ∷ nav) (b ∷ bench) fees (w ∷ weights) initial_cash =
      let usable = length nav == length bench && length weights == length nav in
      let cost_drag = if is_zero initial_cash then nought else fl.div (fl.neg fees) initial_cash in
      let split = do
        bench_ret ← quotient (last_of b bench) b
        cash_drag ← add_cash_drag nought b weights bench
        let excess = fl.div (last_of n nav) n ⊖ bench_ret
        ok (record {
          excess = excess;
          cost_drag = cost_drag;
          cash_drag = cash_drag;
          selection = excess ⊖ cost_drag ⊖ cash_drag;
        })
      in if usable && not (is_zero n) && not (is_nought b) then split else ok no_attribution

  -- The curve, with the fees that the split counts.
  unfoldable pub curve :
      List (Account F)
      → List (Nav F)
      → ℕ
      → Option Date
      → Date
      → F
      → Result (List (Point F) × Attribution F)
  unfolding attribution
  curve accounts navs id start end fees = do
    a ← or_raise (find_account id accounts) value_error
    let rows = sort_on nav_date (keep (is_own id start end) navs)
    let base = base_bench rows
    split ←
        attribution (or_one unit (nav_values rows)) (or_one_bench unit (bench_navs base rows)) fees
          (or_one unit (cash_weights rows)) a.initial_cash
    ok (points base rows, split)

  unfoldable pub nav_history :
      Db F → ℕ → Option Date → Date → Result (List (Point F) × Attribution F)
  unfolding curve
  nav_history db id start end = curve db.accounts db.navs id start end (cum_fees id db.trades)
