-- ===== src/Kline/Factors.antt =====
-- The chain of adjust factors: `compute_factor_chain`, `detect_factor_events`,
-- `hfq_close_2_close_deviation` and `upsert_factor_rows` of backend/app/data/sync_kline.py.
pub mod Chain
use stock_platform.Prelude.{
  ℕ, ◌==◌, ◌&&◌, Bool, true, false, if◌then◌else◌, Option, none, some, List, [], ◌∷◌, length,
}
use stock_platform.Prelude.Rows.{put}
use stock_platform.Float.{Float, ◌⊕◌, ◌⊖◌, ◌⊗◌, ◌<?◌, nought, unit, abs, is_zero}
use stock_platform.Calendar.{Date}
use stock_platform.Execution.{Code}
use stock_platform.Kline.Rows.{Bar}

-- What the chain reads of a bar.
pub record Move (F : Type 0) : Type 0 where
  pub trade_date : Date
  pub close : Option F
  pub pct_change : Option F

abbrev pub move_of : {F : Type 0} → Bar F → Move F
move_of b = record { trade_date = b.trade_date; close = b.close; pct_change = b.pct_change }

pub record Link (F : Type 0) : Type 0 where
  pub trade_date : Date
  pub adj_factor : F

-- A row of `sa_adjust_factor`.
pub record Factor (F : Type 0) : Type 0 where
  pub stock_code : Code
  pub trade_date : Date
  pub adj_factor : F
  pub anchored : Bool

pub record Deviation (F : Type 0) : Type 0 where
  pub trade_date : Date
  pub deviation : F
  pub close : F
  pub factor : F
  pub pct_change : F

abbrev pub same_factor : {F : Type 0} → Factor F → Factor F → Bool
same_factor a b = b.stock_code == a.stock_code && b.trade_date == a.trade_date

module _ {F : Type 0} ⦃fl : Float F⦄ where
  -- `TOL`
  abbrev tol : F
  tol = fl.literal 5 3

  -- `1.0 + pct / 100.0`
  abbrev pub true_return : F → F
  true_return pct = unit ⊕ fl.div pct (fl.of_ℕ 100)

  -- The true and the raw return where a corporate action shows between them.
  abbrev pub jump_of : Option F → Option F → Option F → Option (F × F)
  jump_of (some prev) (some close) (some pct) =
      let r_raw = fl.div close prev in
      let r_true = true_return pct in
      let off = tol <? abs (r_true ⊖ r_raw) in
      if is_zero prev then none else if nought <? r_raw && off then some (r_true, r_raw) else none
  jump_of _ _ _ = none

  abbrev pub jump : Option F → Move F → Option (F × F)
  jump prev m = jump_of prev m.close m.pct_change

  abbrev pub next_close : Option F → Option F → Option F
  next_close prev none = prev
  next_close prev (some close) = some close

  abbrev pub next_factor : F → Option (F × F) → F
  next_factor factor none = factor
  next_factor factor (some (r_true, r_raw)) = fl.div (factor ⊗ r_true) r_raw

  abbrev pub chain_from : F → Option F → List (Move F) → List (Link F)
  chain_from factor prev [] = []
  chain_from factor prev (m ∷ moves) =
      let next = next_factor factor (jump prev m) in
      record { trade_date = m.trade_date; adj_factor = next }
      ∷ chain_from next (next_close prev m.close) moves

  unfoldable pub compute_factor_chain : List (Move F) → List (Link F)
  compute_factor_chain = chain_from unit none

  -- The condition of `detect_factor_events`, which the source writes out a second time.
  abbrev pub deviates : Option F → Option F → Option F → Bool
  deviates (some prev) (some close) (some pct) =
      let r_raw = fl.div close prev in
      let r_true = true_return pct in
      let off = tol <? abs (r_true ⊖ r_raw) in
      if is_zero prev then false else nought <? r_raw && off
  deviates _ _ _ = false

  abbrev pub events_from : Option F → List (Move F) → List Date
  events_from prev [] = []
  events_from prev (m ∷ moves) =
      let events = events_from (next_close prev m.close) moves in
      if deviates prev m.close m.pct_change then m.trade_date ∷ events else events

  unfoldable pub detect_factor_events : List (Move F) → List Date
  detect_factor_events = events_from none

  -- The report of a row whose back-adjusted return is off its true return.
  abbrev pub deviation_of : Move F → F → F → Option F → Option F → Option (Deviation F)
  deviation_of m close factor (some prev) (some pct) =
      let dev = abs (fl.div (close ⊗ factor) prev ⊖ true_return pct) in
      let report : Deviation F = record {
        trade_date = m.trade_date;
        deviation = fl.round dev 6;
        close = close;
        factor = factor;
        pct_change = pct;
      } in
      if is_zero prev then none else if tol <? dev then some report else none
  deviation_of m close factor _ _ = none

  abbrev pub add_deviation : Option (Deviation F) → List (Deviation F) → List (Deviation F)
  add_deviation none bad = bad
  add_deviation (some x) bad = x ∷ bad

  abbrev pub audit_from : Option F → List (Move F) → List (Link F) → List (Deviation F)
  audit_from prev [] links = []
  audit_from prev (m ∷ moves) [] = []
  audit_from prev (m ∷ moves) (l ∷ links) =
      let skipped = audit_from prev moves links in
      elim m.close as (λ _. List (Deviation F)) [
        | none ↦ skipped
        | some close ↦
            add_deviation (deviation_of m close l.adj_factor prev m.pct_change)
              (audit_from (some (close ⊗ l.adj_factor)) moves links)
      ]

  unfoldable pub hfq_close_2_close_deviation : List (Move F) → List (Link F) → List (Deviation F)
  hfq_close_2_close_deviation = audit_from none

  abbrev pub factor_row : Code → Bool → Link F → Factor F
  factor_row code anchored l = record {
    stock_code = code;
    trade_date = l.trade_date;
    adj_factor = fl.round l.adj_factor 8;
    anchored = anchored;
  }

  abbrev pub write_factors : Code → Bool → List (Link F) → List (Factor F) → List (Factor F)
  write_factors code anchored [] table = table
  write_factors code anchored (l ∷ links) table =
      let row = factor_row code anchored l in
      write_factors code anchored links (put (same_factor row) (λ _. row) row table)

  unfoldable pub upsert_factor_rows :
      Code → List (Link F) → Bool → List (Factor F) → List (Factor F) × ℕ
  upsert_factor_rows code links anchored table =
      (write_factors code anchored links table, length links)
