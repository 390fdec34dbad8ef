-- ===== src/Repair/Gaps.antt =====
-- `find_amount_gaps` and `backfill_amount`: the rows of `sa_kline_daily` without an amount. What the fetch of a
-- code and a window returns is an argument; the pauses between the codes are left out.
pub mod Untouched
use stock_platform.Prelude.{
  ℕ, ◌+◌, ◌-◌, ◌==◌, ◌&&◌, ◌||◌, Bool, true, false, leb, ltb, if◌then◌else◌, Option, none, some,
  List, [], ◌∷◌, ◌++◌, length, keep, exists, take,
}
use stock_platform.Prelude.Dict.{Dict, lookup, get_or, insert}
use stock_platform.Prelude.Sort.{sort_on}
use stock_platform.Float.{Float}
use stock_platform.Calendar.{Date}
use stock_platform.Execution.{Code}
use stock_platform.Kline.Rows.{Bar, Source, upsert_kline_rows}
use stock_platform.Kline.Sync.{bar_date, fetch_raw_with_true_pct, with_source}
use stock_platform.Repair.Codes.{repair_circuit_breaker}

pub record Gap : Type 0 where
  pub start : Date
  pub end : Date

abbrev pub widen : Date → List Gap → List Gap
widen d [] = []
widen d (g ∷ []) = record g { end = d } ∷ []
widen d (g ∷ h ∷ segs) = g ∷ widen d (h ∷ segs)

-- More than fifteen days, or another stock, between the rows begin a new gap.
abbrev pub begins : Option (Code × Date) → Code → Date → Bool
begins none code d = true
begins (some (prev_code, prev_date)) code d =
    (if code == prev_code then false else true) || ltb 15 (d - prev_date)

abbrev pub group : Option (Code × Date) → List (Code × Date) → Dict (List Gap) → Dict (List Gap)
group prev [] segments = segments
group prev ((code, d) ∷ rows) segments =
    let segs = get_or [] (lookup code segments) in
    let fresh = segs ++ (record { start = d; end = d } ∷ []) in
    group (some (code, d)) rows
      (insert code (if begins prev code d then fresh else widen d segs) segments)

abbrev pub covers : Date → List Gap → Bool
covers d = exists (λ (g : Gap). leb g.start d && leb d g.end)

module _ {F : Type 0} where
  abbrev lacks_amount : Bar F → Bool
  lacks_amount b = elim b.amount [ none ↦ true | some _ ↦ false ]

  abbrev has_amount : Bar F → Bool
  has_amount b = elim b.amount [ none ↦ false | some _ ↦ true ]

  abbrev bar_keys : List (Bar F) → List (Code × Date)
  bar_keys [] = []
  bar_keys (b ∷ bars) = (b.stock_code, b.trade_date) ∷ bar_keys bars

  abbrev code_of : Bar F → Code
  code_of b = b.stock_code

  unfoldable pub find_amount_gaps : ℕ → List (Bar F) → Dict (List Gap)
  find_amount_gaps limit_codes table =
      let rows = sort_on code_of (sort_on bar_date (keep lacks_amount table)) in
      take limit_codes (group none (take 200_000 (bar_keys rows)) [])

  abbrev pub in_gap : List Gap → Bar F → Bool
  in_gap segs b = covers b.trade_date segs && has_amount b

abbrev gap_start : Date → List Gap → Date
gap_start d [] = d
gap_start d (g ∷ segs) = gap_start (if ltb g.start d then g.start else d) segs

abbrev gap_end : Date → List Gap → Date
gap_end d [] = d
gap_end d (g ∷ segs) = gap_end (if ltb d g.end then g.end else d) segs

-- Three days more on both sides; no code stands there without a gap.
abbrev pub fetch_window : List Gap → Date × Date
fetch_window [] = (0, 0)
fetch_window (g ∷ segs) = (gap_start g.start segs - 3, gap_end g.end segs + 3)

pub record Progress : Type 0 where
  pub repaired : ℕ
  pub failed : List Code

module _ {F : Type 0} ⦃fl : Float F⦄ where
  -- The rows for the gaps, if there are any.
  abbrev pub write_gap_rows : List (Bar F) → Option Source → List (Bar F) → List (Bar F) × ℕ
  write_gap_rows [] source table = (table, 0)
  write_gap_rows (b ∷ bars) source table =
      upsert_kline_rows source (with_source source (b ∷ bars)) table

  -- One code; `none` where the fetch raises.
  unfoldable pub refill_code :
      List Gap → Option (List (Bar F) × List (Bar F)) → List (Bar F) → List (Bar F) × Option ℕ
  unfolding fetch_raw_with_true_pct
  refill_code segs none table = (table, none)
  refill_code segs (some (raw, qfq)) table =
      let (rows, source) = fetch_raw_with_true_pct raw qfq in
      let (table1, n) = write_gap_rows (keep (in_gap segs) rows) source table in (table1, some n)

  -- The run is cut at thirty failures.
  abbrev pub refill_codes :
      (Code → Date × Date → Option (List (Bar F) × List (Bar F)))
      → Dict (List Gap)
      → Progress
      → List (Bar F)
      → List (Bar F) × Progress
  refill_codes fetch [] p table = (table, p)
  refill_codes fetch ((code, segs) ∷ gaps) p table =
      let (table1, rows) = refill_code segs (fetch code (fetch_window segs)) table in
      elim rows [
        | none ↦
            let missed = record p { failed = p.failed ++ (code ∷ []) } in
            let rest = refill_codes fetch gaps missed table1 in
            if leb repair_circuit_breaker (length missed.failed) then (table1, missed) else rest
        | some n ↦ refill_codes fetch gaps (record p { repaired = p.repaired + n }) table1
      ]

  unfoldable pub backfill_amount :
      ℕ
      → (Code → Date × Date → Option (List (Bar F) × List (Bar F)))
      → List (Bar F)
      → List (Bar F) × Progress
  unfolding find_amount_gaps refill_code
  backfill_amount limit_codes fetch table =
      refill_codes fetch (find_amount_gaps limit_codes table) (record { repaired = 0; failed = [] })
        table
