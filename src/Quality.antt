-- ===== src/Quality.antt =====
-- The verdict on one metric of the daily patrol: `_classify` and the loop of `run_daily_check` in
-- backend/app/services/quality_service.py.
pub mod Laws
use stock_platform.Prelude.{ℕ, Bool, true, false, if◌then◌else◌, Option, none, some, List, length}
use stock_platform.Prelude.Result.{Result, ok, err, type_error}
use stock_platform.Float.{Float, ◌<?◌}
use stock_platform.Pipeline.Patrol.{Missing}

pub data Verdict : Type 0 where
  pass warn fail : Verdict

abbrev is_some : {A : Type 0} → Option A → Bool
is_some none = false
is_some (some _) = true

module _ {F : Type 0} ⦃fl : Float F⦄ where
  abbrev pub warned : Option F → (F → Bool) → Bool
  warned none beyond = false
  warned (some limit) beyond = beyond limit

  unfoldable pub classify : F → Option F → F → Bool → Verdict
  classify value warn_limit fail_limit fail_low =
      let below : F → Bool = λ limit. value <? limit in
      let above : F → Bool = λ limit. limit <? value in
      if fail_low
      then (if below fail_limit then fail else if warned warn_limit below then warn else pass)
      else (if above fail_limit then fail else if warned warn_limit above then warn else pass)

  -- The inner conditional of the loop. `_classify` raises where it compares a missing value.
  abbrev pub graded : Option F → Bool → Option F → F → Bool → Result Verdict
  graded none true warn_limit fail_limit fail_low = ok fail
  graded none false warn_limit fail_limit fail_low = err type_error
  graded (some value) has_error warn_limit fail_limit fail_low =
      ok (classify value warn_limit fail_limit fail_low)

  -- The conditional expression of the loop. `has_error` is `detail.get("error")`.
  unfoldable pub metric_status : Option F → Bool → Option F → F → Bool → Result Verdict
  unfolding classify
  metric_status value has_error warn_limit fail_limit fail_low =
      let inner = graded value has_error warn_limit fail_limit fail_low in
      if is_some value then inner else ok warn

  -- The metric `("pipeline_health", "step_missing")` and its rule: no row without a rule, nor before
  -- any run was booked. Its value is the number of missing steps.
  unfoldable pub step_missing_status :
      Option (Option F × F) → Option (List Missing) → Option (Result Verdict)
  step_missing_status none missing = none
  step_missing_status (some _) none = none
  step_missing_status (some (warn_limit, fail_limit)) (some missing) =
      some (metric_status (some (fl.of_ℕ (length missing))) false warn_limit fail_limit false)
