-- ===== src/Samples.antt =====
-- Sample governance: `apply_sample_filters` of backend/app/services/sample_filters.py, over the rows
-- that TradeStatus/Compute writes.
pub mod Laws
use stock_platform.Prelude.{
  ℕ, ◌+◌, ◌==◌, ◌&&◌, ◌||◌, Bool, true, false, if◌then◌else◌, Option, none, some, List, [], ◌∷◌,
  keep, elem, length,
}
use stock_platform.Prelude.Dict.{Dict, lookup, of_rows}
use stock_platform.Prelude.Result.{Result, ok, ◌>>=◌}
use stock_platform.Float.{Float, divide}
use stock_platform.Calendar.{Date}
use stock_platform.Execution.{Code, nonzero}
use stock_platform.TradeStatus.Compute.{Status}

pub record Flags : Type 0 where
  pub exclude_st : Bool
  pub exclude_suspended : Bool
  pub only_tradable : Bool

abbrev pub is_filtering : Flags → Bool
is_filtering f = f.exclude_st || f.exclude_suspended || f.only_tradable

-- What is read of a status row: `is_st`, `is_suspended` and `buy_tradable`.
abbrev pub Judged : Type 0
Judged = Option ℕ × ℕ × ℕ

pub record Excluded : Type 0 where
  pub st : ℕ
  pub suspended : ℕ
  pub untradable : ℕ
  pub no_status : ℕ

abbrev pub nothing : Excluded
nothing = record { st = 0; suspended = 0; untradable = 0; no_status = 0 }

pub record Meta (F : Type 0) : Type 0 where
  pub coverage : Option F
  pub excluded : Option Excluded

abbrev judged_rows : List Status → Dict Judged
judged_rows [] = []
judged_rows (s ∷ rows) =
    (s.stock_code, (s.is_st, s.is_suspended, s.buy_tradable)) ∷ judged_rows rows

-- `{code: (is_st, suspended, buyable) …}` for the codes on the day
abbrev pub status_of : List Status → List Code → Date → Dict Judged
status_of rows codes d =
    of_rows (judged_rows (keep (λ (s : Status). s.trade_date == d && elem s.stock_code codes) rows))

abbrev pub set : Option ℕ → Bool
set none = false
set (some n) = nonzero n

-- The round of one code, before the codes kept and counted after it.
abbrev pub judge_code : Flags → Code → Option Judged → List Code × Excluded → List Code × Excluded
judge_code f c none (out, ex) = (c ∷ out, record ex { no_status = ex.no_status + 1 })
judge_code f c (some (is_st, suspended, buyable)) (out, ex) =
    if f.exclude_st && set is_st
    then (out, record ex { st = ex.st + 1 })
    else if f.exclude_suspended && nonzero suspended
    then (out, record ex { suspended = ex.suspended + 1 })
    else if f.only_tradable && (if nonzero buyable then false else true)
    then (out, record ex { untradable = ex.untradable + 1 })
    else (c ∷ out, ex)

abbrev pub judge_codes : Flags → Dict Judged → List Code → List Code × Excluded
judge_codes f status [] = ([], nothing)
judge_codes f status (c ∷ codes) = judge_code f c (lookup c status) (judge_codes f status codes)

abbrev pub is_empty : List Code → Bool
is_empty [] = true
is_empty (_ ∷ _) = false

module _ {F : Type 0} ⦃fl : Float F⦄ where
  abbrev pub filtered : List Status → List Code → Date → Flags → Result (List Code × Meta F)
  filtered rows codes d f = do
    let status = status_of rows codes d
    let (out, ex) = judge_codes f status codes
    share ← divide (fl.of_ℕ (length status)) (fl.of_ℕ (length codes))
    ok (out, record { coverage = some (fl.round share 4); excluded = some ex })

  -- Codes without a status row are kept.
  unfoldable pub apply_sample_filters :
      List Status → List Code → Date → Flags → Result (List Code × Meta F)
  apply_sample_filters rows codes d f =
      let judged = filtered rows codes d f in
      if is_empty codes || (if is_filtering f then false else true)
      then ok (codes, record { coverage = none; excluded = none })
      else judged
