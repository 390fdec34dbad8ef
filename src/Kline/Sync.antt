-- ===== src/Kline/Sync.antt =====
-- The writes of one stock: `sync_one_stock` of backend/app/data/sync_daily.py, and
-- `fetch_raw_with_true_pct`, `init_adjust_factors`, `maintain_factor_incremental` and
-- `sync_one_stock_v2` of backend/app/data/sync_kline.py. What the fetchers return is an argument.
pub mod Stale
use stock_platform.Prelude.{
  ℕ, ◌==◌, ◌&&◌, Bool, true, false, ltb, if◌then◌else◌, Option, none, some, List, [], ◌∷◌, keep,
}
use stock_platform.Prelude.Sort.{sort_on, last_on}
use stock_platform.Prelude.Dict.{Dict, lookup, of_rows}
use stock_platform.Float.{Float, ◌⊗◌}
use stock_platform.Calendar.{Date}
use stock_platform.Execution.{Code}
use stock_platform.Kline.Rows.{Bar, Source, tencent, upsert_daily_rows, upsert_kline_rows}
use stock_platform.Kline.Factors.{
  Move, move_of, Link, Factor, compute_factor_chain, detect_factor_events, upsert_factor_rows,
}

-- `sa_kline_daily` and `sa_adjust_factor`.
pub record Store (F : Type 0) : Type 0 where
  pub klines : List (Bar F)
  pub factors : List (Factor F)

abbrev pub bar_date : {F : Type 0} → Bar F → Date
bar_date b = b.trade_date

abbrev pub factor_date : {F : Type 0} → Factor F → Date
factor_date f = f.trade_date

abbrev is_empty : List Date → Bool
is_empty [] = true
is_empty (_ ∷ _) = false

-- Whether any corporate action shows.
abbrev pub has_events : List Date → Bool
has_events events = if is_empty events then false else true

module _ {F : Type 0} where
  abbrev pct_rows : List (Bar F) → Dict (Option F)
  pct_rows [] = []
  pct_rows (b ∷ bars) = (b.trade_date, b.pct_change) ∷ pct_rows bars

  -- The true return where the adjusted series has one.
  abbrev pub true_pct : Option (Option F) → Option F → Option F
  true_pct (some (some pct)) raw = some pct
  true_pct _ raw = raw

  abbrev pub overlay : Dict (Option F) → List (Bar F) → List (Bar F)
  overlay pct_by_date [] = []
  overlay pct_by_date (b ∷ bars) =
      record b { pct_change = true_pct (lookup b.trade_date pct_by_date) b.pct_change }
      ∷ overlay pct_by_date bars

  -- The source of the first row.
  abbrev pub source_of : List (Bar F) → Option Source
  source_of [] = none
  source_of (b ∷ _) = elim b.source [ none ↦ some tencent | some s ↦ some s ]

  unfoldable pub fetch_raw_with_true_pct :
      (raw_rows qfq_rows : List (Bar F)) → List (Bar F) × Option Source
  fetch_raw_with_true_pct raw_rows qfq_rows =
      (overlay (of_rows (pct_rows qfq_rows)) raw_rows, source_of raw_rows)

  abbrev pub moves_of : List (Bar F) → List (Move F)
  moves_of [] = []
  moves_of (b ∷ bars) = move_of b ∷ moves_of bars

  abbrev pub load_kline_rows : Code → List (Bar F) → List (Bar F)
  load_kline_rows code table = sort_on bar_date (keep (λ (b : Bar F). b.stock_code == code) table)

  abbrev pub latest_factor : Code → List (Factor F) → Option (Factor F)
  latest_factor code = last_on factor_date (λ (f : Factor F). f.stock_code == code)

  abbrev pub bar_before : Code → Date → List (Bar F) → Option (Bar F)
  bar_before code d = last_on bar_date (λ (b : Bar F). b.stock_code == code && ltb b.trade_date d)

  -- The last stored bar before the new ones, without a return of its own.
  abbrev pub seed_of : Factor F → Option (Bar F) → Move F
  seed_of last none = record { trade_date = last.trade_date; close = none; pct_change = none }
  seed_of last (some b) = record { trade_date = b.trade_date; close = b.close; pct_change = none }

  abbrev pub first_date : Date → List (Bar F) → Date
  first_date d [] = d
  first_date d (b ∷ bars) = first_date (if ltb b.trade_date d then b.trade_date else d) bars

  abbrev tail_of : List (Link F) → List (Link F)
  tail_of [] = []
  tail_of (_ ∷ links) = links

module _ {F : Type 0} ⦃fl : Float F⦄ where
  unfoldable pub sync_one_stock : (fetched table : List (Bar F)) → List (Bar F) × ℕ
  sync_one_stock fetched table = upsert_daily_rows fetched table

  -- The whole chain from the stored bars; nothing is written where there is none.
  unfoldable pub init_adjust_factors : Code → Store F → Store F × ℕ
  init_adjust_factors code store =
      let moves = moves_of (load_kline_rows code store.klines) in
      let (factors, n) = upsert_factor_rows code (compute_factor_chain moves) true store.factors in
      (record store { factors = factors }, n)

  abbrev pub rebase : F → List (Link F) → List (Link F)
  rebase base [] = []
  rebase base (l ∷ links) = record l { adj_factor = l.adj_factor ⊗ base } ∷ rebase base links

  -- With the last stored factor, or with none.
  abbrev pub extend_chain :
      Code → Bar F → List (Bar F) → Store F → Option (Factor F) → Store F × Bool
  extend_chain code b bars store none =
      let ordered = moves_of (sort_on bar_date (b ∷ bars)) in
      ((init_adjust_factors code store).0, has_events (detect_factor_events ordered))
  extend_chain code b bars store (some last) =
      let ordered = moves_of (sort_on bar_date (b ∷ bars)) in
      let seed = seed_of last (bar_before code (first_date b.trade_date bars) store.klines) in
      let links = rebase last.adj_factor (tail_of (compute_factor_chain (seed ∷ ordered))) in
      let factors = (upsert_factor_rows code links false store.factors).0 in
      (record store { factors = factors }, has_events (detect_factor_events (seed ∷ ordered)))

  unfoldable pub maintain_factor_incremental : Code → List (Bar F) → Store F → Store F × Bool
  maintain_factor_incremental code [] store = (store, false)
  maintain_factor_incremental code (b ∷ bars) store =
      extend_chain code b bars store (latest_factor code store.factors)

  abbrev pub with_source : Option Source → List (Bar F) → List (Bar F)
  with_source source [] = []
  with_source source (b ∷ bars) = record b { source = source } ∷ with_source source bars

  -- The rows and their source come from `fetch_raw_with_true_pct`.
  abbrev pub store_fetched : Code → List (Bar F) → Option Source → Store F → Store F × ℕ
  store_fetched code [] source store = (store, 0)
  store_fetched code (b ∷ bars) source store =
      let rows = with_source source (b ∷ bars) in
      let (klines, written) = upsert_kline_rows source rows store.klines in
      let (store1, event) =
        maintain_factor_incremental code rows (record store { klines = klines }) in
      let anchored = (init_adjust_factors code store1).0 in
      (if event then anchored else store1, written)

  unfoldable pub sync_one_stock_v2 :
      Code → (raw_rows qfq_rows : List (Bar F)) → Store F → Store F × ℕ
  sync_one_stock_v2 code raw_rows qfq_rows store =
      let (rows, source) = fetch_raw_with_true_pct raw_rows qfq_rows in
      store_fetched code rows source store
