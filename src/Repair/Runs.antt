-- ===== src/Repair/Runs.antt =====
-- The scans of one stock's frame: `frozen_segments` and `misaligned_segments`.
pub mod Maximal
pub mod Complete
pub mod Spans
use stock_platform.Prelude.{
  ℕ, ◌+◌, ◌-◌, ◌&&◌, ◌||◌, Bool, true, false, leb, ltb, if◌then◌else◌, Option, none, some, List, [],
  ◌∷◌, length, map, take,
}
use stock_platform.Prelude.Dict.{get_or}
use stock_platform.Float.{Float, ◌<?◌, ◌≤?◌, nought, unit, abs}
use stock_platform.Calendar.{Date}

-- A bar whose close is not missing.
pub record Quote (F : Type 0) : Type 0 where
  pub trade_date : Date
  pub close : F
  pub pct_change : Option F

-- The start of a run and the number that is kept with it.
pub record Run : Type 0 where
  pub start : ℕ
  pub bars : ℕ

-- Positions of the first and the last bar, and the number of bars.
pub record Segment : Type 0 where
  pub start : ℕ
  pub end : ℕ
  pub bars : ℕ

-- A run is kept where it is long enough; `extra` is added to the flags counted.
abbrev pub close_run : ℕ → ℕ → Option ℕ → ℕ → List Run → List Run
close_run least extra none run_len segs = segs
close_run least extra (some run_start) run_len segs =
    if leb least (run_len + extra)
    then record { start = run_start; bars = run_len + extra } ∷ segs
    else segs

-- The loop over the flags, from a position on.
abbrev pub scan : ℕ → ℕ → ℕ → Option ℕ → ℕ → List Bool → List Run
scan least extra ts run_start run_len [] = close_run least extra run_start run_len []
scan least extra ts run_start run_len (true ∷ flags) =
    scan least extra (ts + 1) (some (get_or ts run_start)) (run_len + 1) flags
scan least extra ts run_start run_len (false ∷ flags) =
    close_run least extra run_start run_len (scan least extra (ts + 1) none 0 flags)

abbrev at_most : ℕ → ℕ → ℕ
at_most a b = if ltb b a then b else a

abbrev pub freeze_run_len : ℕ
freeze_run_len = 5

abbrev pub misalign_run_len : ℕ
misalign_run_len = 3

abbrev pub misalign_buffer : ℕ
misalign_buffer = 60

-- The flags count transitions: the segment begins one bar before the first of them.
abbrev pub frozen_of : ℕ → Run → Segment
frozen_of size r = record {
  start = r.start - 1;
  end = at_most (r.start + r.bars - 2) (size - 1);
  bars = r.bars;
}

abbrev pub misaligned_of : ℕ → Run → Segment
misaligned_of size r = record {
  start = r.start;
  end = at_most (r.start + r.bars - 1) (size - 1);
  bars = r.bars;
}

module _ {F : Type 0} ⦃fl : Float F⦄ where
  abbrev same : F → F → Bool
  same a b = a ≤? b && b ≤? a

  -- No return, or one that is nearly nothing.
  abbrev flat_pct : Option F → Bool
  flat_pct none = abs nought <? fl.literal 1 9
  flat_pct (some pct) = abs pct <? fl.literal 1 9

  abbrev is_flat : Option F → Quote F → Bool
  is_flat none q = false
  is_flat (some prev) q = same q.close prev && flat_pct q.pct_change

  abbrev pub flat_flags : Option F → List (Quote F) → List Bool
  flat_flags prev [] = []
  flat_flags prev (q ∷ quotes) = is_flat prev q ∷ flat_flags (some q.close) quotes

  unfoldable pub frozen_segments : List (Quote F) → List Segment
  frozen_segments quotes =
      map (frozen_of (length quotes)) (scan freeze_run_len 1 0 none 0 (flat_flags none quotes))

  -- `rolling(60, min_periods=10).median()` of the closes before; `median` is pandas'.
  abbrev pub rolling_median : (List F → F) → List F → Option F
  rolling_median median prior =
      let window = take misalign_buffer prior in
      if leb 10 (length window) then some (median window) else none

  abbrev is_suspect : Option F → F → Bool
  is_suspect none close = false
  is_suspect (some med) close =
      let ratio = fl.div close med in fl.of_ℕ 5 <? ratio || ratio <? fl.div unit (fl.of_ℕ 5)

  -- The closes before stand with the latest first.
  abbrev pub suspect_flags : (List F → F) → List F → List (Quote F) → List Bool
  suspect_flags median prior [] = []
  suspect_flags median prior (q ∷ quotes) =
      is_suspect (rolling_median median prior) q.close
      ∷ suspect_flags median (q.close ∷ prior) quotes

  unfoldable pub misaligned_segments : (List F → F) → List (Quote F) → List Segment
  misaligned_segments median quotes =
      map (misaligned_of (length quotes))
        (scan misalign_run_len 0 0 none 0 (suspect_flags median [] quotes))
