-- ===== src/Repair/Codes.antt =====
-- `_scan`, `repair_codes`, `repair_findings` and `run_full_repair`. The rows that the fetches of a code and
-- a window return are an argument; the pauses between the codes are left out.
pub mod Tried
pub mod Breaker
use stock_platform.Prelude.{
  ℕ, ◌+◌, ◌-◌, ◌*◌, ◌==◌, ◌&&◌, ◌||◌, Bool, true, false, leb, ltb, if◌then◌else◌, Option, none,
  some, List, [], ◌∷◌, ◌++◌, length, keep, elem, get_elem?,
}
use stock_platform.Prelude.Dict.{Dict, get_or, insert, insert_all}
use stock_platform.Prelude.Sort.{sort_on}
use stock_platform.Float.{Float}
use stock_platform.Calendar.{Date}
use stock_platform.Execution.{Code}
use stock_platform.Kline.Rows.{Bar, upsert_daily_rows}
use stock_platform.Kline.Sync.{Store, bar_date, sync_one_stock, sync_one_stock_v2}
use stock_platform.Repair.Runs.{
  Quote, Segment, freeze_run_len, frozen_segments, misaligned_segments,
}

-- A segment by its dates.
pub record Span : Type 0 where
  pub start : Date
  pub end : Date
  pub bars : ℕ

-- `daily_prices` beside the two tables of the second store.
pub record Stores (F : Type 0) : Type 0 where
  pub daily : List (Bar F)
  pub raw : Store F

pub data KlineSource : Type 0 where
  legacy v2 other : KlineSource

pub record Settings : Type 0 where
  pub kline_source : KlineSource
  pub kline_rebuild_enabled : Bool

-- The rows for `daily_prices`, and the raw and the adjusted ones; `none` where the fetch raises.
pub record Fetched (F : Type 0) : Type 0 where
  pub quotes : Option (List (Bar F))
  pub raw_and_qfq : Option (List (Bar F) × List (Bar F))

pub record Report : Type 0 where
  pub repaired : Dict ℕ
  pub failed : List Code

abbrev pub no_report : Report
no_report = record { repaired = []; failed = [] }

abbrev pub repair_circuit_breaker : ℕ
repair_circuit_breaker = 30

abbrev write_legacy : Settings → Bool
write_legacy s = elim s.kline_source [ legacy ↦ true | v2 ↦ false | other ↦ false ]

abbrev write_v2 : Settings → Bool
write_v2 s =
    (elim s.kline_source [ legacy ↦ false | v2 ↦ true | other ↦ false ]) || s.kline_rebuild_enabled

abbrev add_finding : Code → List Span → Dict (List Span) → Dict (List Span)
add_finding code [] findings = findings
add_finding code (s ∷ spans) findings = (code, s ∷ spans) ∷ findings

abbrev outer_start : Date → List Span → Date
outer_start d [] = d
outer_start d (g ∷ segs) = outer_start (if ltb g.start d then g.start else d) segs

abbrev outer_end : Date → List Span → Date
outer_end d [] = d
outer_end d (g ∷ segs) = outer_end (if ltb d g.end then g.end else d) segs

abbrev pub pad_days : ℕ
pad_days = 10

-- The window around all segments of a code; no code is found without a segment.
abbrev pub window_of : List Span → Date × Date
window_of [] = (0, 0)
window_of (g ∷ segs) = (outer_start g.start segs - pad_days, outer_end g.end segs + pad_days)

module _ {F : Type 0} where
  abbrev pub quotes_of : List (Bar F) → List (Quote F)
  quotes_of [] = []
  quotes_of (b ∷ bars) =
      let rest = quotes_of bars in
      elim b.close [
        | none ↦ rest
        | some close ↦
            record { trade_date = b.trade_date; close = close; pct_change = b.pct_change } ∷ rest
      ]

  abbrev codes_of : List (Bar F) → List Code
  codes_of [] = []
  codes_of (b ∷ bars) =
      let rest = codes_of bars in if elem b.stock_code rest then rest else b.stock_code ∷ rest

  abbrev date_at : List (Quote F) → ℕ → Date
  date_at quotes k = elim (get_elem? quotes k) [ none ↦ 0 | some q ↦ q.trade_date ]

  abbrev spans_of : List (Quote F) → List Segment → List Span
  spans_of quotes [] = []
  spans_of quotes (g ∷ segs) =
      record { start = date_at quotes g.start; end = date_at quotes g.end; bars = g.bars }
      ∷ spans_of quotes segs

  abbrev pub scan_codes :
      (List (Quote F) → List Segment) → List (Bar F) → List Code → Dict (List Span)
  scan_codes detector frame [] = []
  scan_codes detector frame (code ∷ codes) =
      let bars = sort_on bar_date (keep (λ (b : Bar F). b.stock_code == code) frame) in
      let quotes = quotes_of bars in
      let rest = scan_codes detector frame codes in
      let found = add_finding code (spans_of quotes (detector quotes)) rest in
      if ltb (length quotes) freeze_run_len then rest else found

  -- The bars from `since` on, by stock.
  unfoldable pub scan_window :
      (List (Quote F) → List Segment) → Date → List (Bar F) → Dict (List Span)
  scan_window detector since table =
      let frame = keep (λ (b : Bar F). leb since b.trade_date) table in
      scan_codes detector frame (sort_on (λ c. c) (codes_of frame))

module _ {F : Type 0} ⦃fl : Float F⦄ where
  -- A write of one store; what an earlier write of the code has committed stays.
  abbrev repair_legacy : Settings → Fetched F → Stores F → Stores F × Option ℕ
  repair_legacy s got stores =
      let written : Stores F × Option ℕ = elim got.quotes [
        | none ↦ (stores, none)
        | some rows ↦
            let (daily, n) = sync_one_stock rows stores.daily in
            (record stores { daily = daily }, some n)
      ] in
      if write_legacy s then written else (stores, some 0)

  abbrev repair_v2 : Settings → Code → Fetched F → Stores F × Option ℕ → Stores F × Option ℕ
  repair_v2 s code got (stores, none) = (stores, none)
  repair_v2 s code got (stores, some rows) =
      let written : Stores F × Option ℕ = elim got.raw_and_qfq [
        | none ↦ (stores, none)
        | some (raw, qfq) ↦
            let (store, n) = sync_one_stock_v2 code raw qfq stores.raw in
            (record stores { raw = store }, some (rows + n))
      ] in
      if write_v2 s then written else (stores, some rows)

  unfoldable pub repair_one : Settings → Code → Fetched F → Stores F → Stores F × Option ℕ
  repair_one s code got stores = repair_v2 s code got (repair_legacy s got stores)

  -- The loop over the codes, with the failures in a row so far.
  abbrev pub repair_from :
      Settings → (Code → Fetched F) → List Code → ℕ → Report → Stores F → Stores F × Report
  repair_from s fetch [] consecutive report stores = (stores, report)
  repair_from s fetch (code ∷ codes) consecutive report stores =
      let (stores1, rows) = repair_one s code (fetch code) stores in
      elim rows [
        | none ↦
            let missed = record report { failed = report.failed ++ (code ∷ []) } in
            let rest = repair_from s fetch codes (consecutive + 1) missed stores1 in
            if leb repair_circuit_breaker (consecutive + 1) then (stores1, missed) else rest
        | some n ↦
            repair_from s fetch codes 0 (record report { repaired = insert code n report.repaired })
              stores1
      ]

  unfoldable pub repair_codes :
      Settings → (Code → Fetched F) → List Code → Stores F → Stores F × Report
  unfolding repair_one
  repair_codes s fetch codes stores = repair_from s fetch codes 0 no_report stores

  -- One call of `repair_codes` for each code.
  abbrev pub repair_each :
      Settings
      → (Code → Date × Date → Fetched F)
      → Dict (List Span)
      → Report
      → Stores F
      → Stores F × Report
  repair_each s fetch [] report stores = (stores, report)
  repair_each s fetch ((code, segs) ∷ findings) report stores =
      let (stores1, res) = repair_codes s (λ c. fetch c (window_of segs)) (code ∷ []) stores in
      repair_each s fetch findings
        (record {
          repaired = insert_all res.repaired report.repaired;
          failed = report.failed ++ res.failed;
        })
        stores1

  unfoldable pub repair_findings :
      Settings → (Code → Date × Date → Fetched F) → Dict (List Span) → Stores F → Stores F × Report
  unfolding repair_codes
  repair_findings s fetch findings stores = repair_each s fetch findings no_report stores

  -- Both scans come before the first repair; the frozen stretches are repaired first.
  unfoldable pub run_full_repair :
      Settings
      → (Code → Date × Date → Fetched F)
      → (List F → F)
      → Date
      → Stores F
      → Stores F × Report × Report
  unfolding repair_findings frozen_segments misaligned_segments scan_window
  run_full_repair s fetch median today stores =
      let frozen = scan_window frozen_segments (today - 120) stores.daily in
      let misaligned = scan_window (misaligned_segments median) (today - 365 * 3) stores.daily in
      let (stores1, one) = repair_findings s fetch frozen stores in
      let (stores2, two) = repair_findings s fetch misaligned stores1 in (stores2, one, two)
