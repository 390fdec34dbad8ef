-- ===== src/Backfill/State.antt =====
-- The rows of `sa_history_sync_state` and `sa_kline_sync_state`, and when a stock is complete:
-- `expected_bars`, `_is_complete` and `_complete_from_own_start`.
use stock_platform.Prelude.{
  ℕ, ◌+◌, ◌-◌, ◌*◌, ◌==◌, Bool, false, ltb, if◌then◌else◌, Option, none, some, List, [], ◌∷◌, count,
}
use stock_platform.Prelude.Int.{ℤ, pos, pos_part, ltb_ℤ, leb_ℤ}
use stock_platform.Prelude.Result.{Result, ok, Error, not_integral, ◌>>=◌, or_raise}
use stock_platform.Float.{Float, ◌⊗◌, divide}
use stock_platform.Calendar.{Date}
use stock_platform.Execution.{Code}

pub data SyncStatus : Type 0 where
  pending done failed : SyncStatus

-- `last_error`: the text of an exception, or of an incomplete pass.
pub data Trouble : Type 0 where
  raised : Error → Trouble
  incomplete : (attempts : ℕ) → (earliest : Option Date) → (bars : ℕ) → Trouble

-- `priority` is a column of `sa_kline_sync_state`; the rows of the other table have it at 1.
pub record Row : Type 0 where
  pub id : ℕ
  pub stock_code : Code
  pub target_start : Date
  pub earliest_bar : Option Date
  pub status : SyncStatus
  pub attempts : ℕ
  pub priority : ℕ
  pub last_error : Option Trouble

-- The stored bars: the code and the date of each.
abbrev pub Bars : Type 0
Bars = List (Code × Date)

-- `_earliest_bar`: the least date of the code.
abbrev pub earliest_bar : Bars → Code → Option Date
earliest_bar [] code = none
earliest_bar ((c, d) ∷ bars) code =
    let rest = earliest_bar bars code in
    let least : Option Date = elim rest [
      | none ↦ some d
      | some e ↦ some (if ltb e d then e else d)
    ] in
    if c == code then least else rest

abbrev pub bar_count : Bars → Code → ℕ
bar_count bars code = count (λ (b : Code × Date). b.0 == code) bars

abbrev pub max_attempts : ℕ
max_attempts = 5

abbrev pub grace_days : ℕ
grace_days = 14

abbrev at_least_one : ℤ → ℕ
at_least_one n = if ltb_ℤ n (pos 1) then 1 else pos_part n

-- The floats are an explicit parameter, since no type shows them.
module _ (F : Type 0) ⦃fl : Float F⦄ where
  abbrev to_int : F → Result ℤ
  to_int x = or_raise (fl.int x) not_integral

  -- `max(int(days * 5 / 7 * 0.93), 1)`. Where the end lies before the start, the days are 1.
  unfoldable pub expected_bars : Date → Date → Result ℕ
  expected_bars start end = do
    let days = if ltb 1 (end - start) then end - start else 1
    weeks ← divide (fl.of_ℕ (days * 5)) (fl.of_ℕ 7)
    n ← to_int (weeks ⊗ fl.literal 93 2)
    ok (at_least_one n)

  -- `bars >= int(_MIN_FILL_RATIO * expected_bars(start, end))`
  unfoldable pub is_filled : Date → Date → ℕ → Result Bool
  unfolding expected_bars
  is_filled start end bars = do
    expected ← expected_bars start end
    least ← to_int (fl.literal 9 1 ⊗ fl.of_ℕ expected)
    ok (leb_ℤ least (pos bars))

  unfoldable pub is_complete : Date → Date → Option Date → ℕ → Result Bool
  is_complete target end none bars = ok false
  is_complete target end (some earliest) bars =
      if ltb (target + grace_days) earliest then ok false else is_filled target end bars

  unfoldable pub complete_from_own_start : Date → Date → Option Date → ℕ → Result Bool
  complete_from_own_start target end none bars = ok false
  complete_from_own_start target end (some earliest) bars =
      is_filled (if ltb target earliest then earliest else target) end bars
