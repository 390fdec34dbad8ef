-- ===== src/Repair/Gaps/Untouched.antt =====
-- Laws of `backfill_amount`.
use stock_platform.Prelude.{
  ℕ, ◌+◌, ◌==◌, ◌≡◌, refl, arith, ◌&&◌, ◌||◌, Bool, true, false, leb, Option, none, some, List, [],
  ◌∷◌, ◌++◌, length, keep, exists, first, map, All, inl, inr, Option-cases, Bool-cases, ap, ◌∙◌,
}
use stock_platform.Prelude.Dict.{Dict, lookup}
use stock_platform.Calendar.{Date}
use stock_platform.Execution.{Code}
use stock_platform.Float.{Float}
use stock_platform.Kline.Rows.{Bar, Source, is_bar, is_valid, kline_row}
use stock_platform.Kline.Rows.Laws.{last_or, upsert_kline_rows-first}
use stock_platform.Kline.Sync.{with_source, overlay, fetch_raw_with_true_pct, true_pct}
use stock_platform.Repair.Gaps.{
  Gap, covers, in_gap, write_gap_rows, refill_code, refill_codes, Progress, find_amount_gaps,
  fetch_window, backfill_amount,
}
use stock_platform.Repair.Codes.{repair_circuit_breaker}

-- Whether the day lies in a gap of the code.
abbrev pub in_gaps : Code → Date → Dict (List Gap) → Bool
in_gaps c d [] = false
in_gaps c d ((code, segs) ∷ gaps) = (code == c && covers d segs) || in_gaps c d gaps

-- The bars are all of the code.
abbrev OfCode : {F : Type 0} → Code → List (Bar F) → Type 0
OfCode {F = F} code = All (λ (b : Bar F). b.stock_code ≡ code)

-- So are the raw ones that were fetched.
abbrev pub Own : {F : Type 0} → Code → Option (List (Bar F) × List (Bar F)) → Type 0
Own code none = Unit
Own code (some (raw, qfq)) = OfCode code raw

module _ {F : Type 0} ⦃fl : Float F⦄ (c : Code) (d : Date) where
  abbrev has_bar : List (Bar F) → Bool
  has_bar = exists (is_bar c d)

  last_or-none :
      (old : Option (Bar F)) (bars : List (Bar F))
      → has_bar bars ≡ false
      → last_or c d old bars ≡ old
  last_or-none old [] h = refl
  last_or-none old (b ∷ bars) h = ground (arith, h, last_or-none old bars)

  has_bar-rows :
      (source : Option Source) (bars : List (Bar F))
      → has_bar bars ≡ false
      → has_bar (map (kline_row source) (keep is_valid bars)) ≡ false
  has_bar-rows source [] h = refl
  has_bar-rows source (b ∷ bars) h =
      ground (arith, h, has_bar-rows source bars, Bool-cases (is_valid b))

  has_bar-with_source :
      (source : Option Source) (bars : List (Bar F))
      → has_bar (with_source source bars) ≡ has_bar bars
  has_bar-with_source source [] = refl
  has_bar-with_source source (b ∷ bars) = ground (arith, has_bar-with_source source bars)

  in_gap-other :
      (code : Code) (segs : List Gap) (b : Bar F)
      → (code == c && covers d segs) ≡ false
      → b.stock_code ≡ code
      → in_gap segs b ≡ true
      → is_bar c d b ≡ false
  in_gap-other code segs b h own inside = elim (Bool-cases (b.trade_date == d)) [
    | inl e ↦
        let same : b.trade_date ≡ d = ground (arith, e) in
        let day = ap (λ t. covers t segs) same in
        ground (arith, h, own, inside, day, e, Bool-cases (covers d segs))
    | inr e ↦ ground (arith, e, Bool-cases (b.stock_code == c))
  ]

  has_bar-in_gap :
      (code : Code) (segs : List Gap) (pct : Dict (Option F)) (bars : List (Bar F))
      → (code == c && covers d segs) ≡ false
      → OfCode code bars
      → has_bar (keep (in_gap segs) (overlay pct bars)) ≡ false
  has_bar-in_gap code segs pct [] h own = refl
  has_bar-in_gap code segs pct (b ∷ bars) h (own, rest) =
      let filled = record b { pct_change = true_pct (lookup b.trade_date pct) b.pct_change } in
      let later = has_bar-in_gap code segs pct bars h rest in
      elim (Bool-cases (in_gap segs filled)) [
        | inl e ↦ rw e (ground (arith, later, in_gap-other code segs filled h own e))
        | inr e ↦ rw e later
      ]

  first-write_gap_rows :
      (bars : List (Bar F)) (source : Option Source) (table : List (Bar F))
      → has_bar bars ≡ false
      → first (is_bar c d) (write_gap_rows bars source table).0 ≡ first (is_bar c d) table
  first-write_gap_rows [] source table h = refl
  first-write_gap_rows (b ∷ bars) source table h =
      let rows = with_source source (b ∷ bars) in
      upsert_kline_rows-first c d source rows table
      ∙ last_or-none (first (is_bar c d) table) (map (kline_row source) (keep is_valid rows))
          (has_bar-rows source rows (has_bar-with_source source (b ∷ bars) ∙ h))

  first-refill_code :
      (code : Code) (segs : List Gap) (got : Option (List (Bar F) × List (Bar F)))
      (table : List (Bar F))
      → (code == c && covers d segs) ≡ false
      → Own code got
      → first (is_bar c d) (refill_code segs got table).0 ≡ first (is_bar c d) table
  unfolding refill_code
  first-refill_code code segs none table h own = refl
  first-refill_code code segs (some (raw, qfq)) table h own =
      let (rows, source) = fetch_raw_with_true_pct raw qfq in
      first-write_gap_rows (keep (in_gap segs) rows) source table
        (has_bar-in_gap code segs _ raw h own)

  first-refill_codes :
      (fetch : Code → Date × Date → Option (List (Bar F) × List (Bar F))) (gaps : Dict (List Gap))
      (p : Progress) (table : List (Bar F))
      → in_gaps c d gaps ≡ false
      → ((code : Code) (w : Date × Date) → Own code (fetch code w))
      → first (is_bar c d) (refill_codes fetch gaps p table).0 ≡ first (is_bar c d) table
  first-refill_codes fetch [] p table h own = refl
  first-refill_codes fetch ((code, segs) ∷ gaps) p table h own =
      let done = refill_code segs (fetch code (fetch_window segs)) table in
      let here : (code == c && covers d segs) ≡ false =
        ground (arith, h, Bool-cases (in_gaps c d gaps)) in
      let later : in_gaps c d gaps ≡ false = ground (arith, h, here) in
      let same =
        first-refill_code code segs (fetch code (fetch_window segs)) table here
          (own code (fetch_window segs)) in
      elim (Option-cases done.1) [
        | inl e ↦
            let missed : Progress = record p { failed = p.failed ++ (code ∷ []) } in
            rw (refill_codes, e)
              (elim (Bool-cases (leb repair_circuit_breaker (length missed.failed))) [
                | inl b ↦ rw b same
                | inr b ↦ rw b (first-refill_codes fetch gaps missed done.0 later own ∙ same)
              ])
        | inr (n, e) ↦
            rw (refill_codes, e)
              (first-refill_codes fetch gaps (record p { repaired = p.repaired + n }) done.0 later
                  own
                ∙ same)
      ]

-- The refill of missing amounts changes no bar on a day that lies in no gap of its stock, the good
-- bars on the padding days included, provided that the bars fetched for a stock are of that stock.
pub backfill_amount-Untouched :
    {F : Type 0} ⦃fl : Float F⦄ (c : Code) (d : Date) (limit_codes : ℕ)
    (fetch : Code → Date × Date → Option (List (Bar F) × List (Bar F))) (table : List (Bar F))
    → in_gaps c d (find_amount_gaps limit_codes table) ≡ false
    → ((code : Code) (w : Date × Date) → Own code (fetch code w))
    → first (is_bar c d) (backfill_amount limit_codes fetch table).0 ≡ first (is_bar c d) table
unfolding backfill_amount
backfill_amount-Untouched c d limit_codes fetch table h own =
    first-refill_codes c d fetch (find_amount_gaps limit_codes table)
      (record { repaired = 0; failed = [] }) table h own
