-- ===== src/Quality/Laws.antt =====
-- How the verdict on a metric moves with its value.
use stock_platform.Prelude.{
  ℕ, ◌≤◌, ◌≡◌, refl, arith, Bool, true, false, if◌then◌else◌, Option, none, some,
}
use stock_platform.Prelude.Result.{Result, ok, err}
use stock_platform.Float.{Float, ◌<?◌}
use stock_platform.Quality.{Verdict, pass, warn, fail, metric_status}

-- An exception would be worse than any verdict.
abbrev pub severity : Result Verdict → ℕ
severity (ok pass) = 0
severity (ok warn) = 1
severity (ok fail) = 2
severity (err _) = 3

module _ {F : Type 0} ⦃fl : Float F⦄ where
  -- The second value is further on the side that counts.
  abbrev pub IsWorse : Bool → F → F → Type 0
  IsWorse fail_low value worse = (if fail_low then worse <? value else value <? worse) ≡ true

  -- Given that the order of floats is transitive: of two values of a metric the worse one never gets
  -- the milder verdict, whatever the limits are, and neither check raises; a metric without a value
  -- warns, also where its check raised, although the expression has a branch that fails it.
  pub metric_status_worse :
      ((a b c : F) → (a <? b) ≡ true → (b <? c) ≡ true → (a <? c) ≡ true)
      → (value worse : F) (has_error has_error' : Bool) (warn_limit : Option F) (fail_limit : F)
        (fail_low : Bool)
      → IsWorse fail_low value worse
      → (severity (metric_status (some value) has_error warn_limit fail_limit fail_low)
          ≤ severity (metric_status (some worse) has_error' warn_limit fail_limit fail_low))
        × (severity (metric_status (some worse) has_error' warn_limit fail_limit fail_low) ≤ 2)
        × (metric_status none has_error warn_limit fail_limit fail_low ≡ ok warn)
  unfolding metric_status
  metric_status_worse trans value worse e e' none limit true h =
      (ground (arith, trans worse value limit, h), ground arith, refl)
  metric_status_worse trans value worse e e' none limit false h =
      (ground (arith, trans limit value worse, h), ground arith, refl)
  metric_status_worse trans value worse e e' (some w) limit true h =
      (ground (arith, trans worse value limit, trans worse value w, h), ground arith, refl)
  metric_status_worse trans value worse e e' (some w) limit false h =
      (ground (arith, trans limit value worse, trans w value worse, h), ground arith, refl)
