-- ===== src/Paper/Analytics/Drift.antt =====
-- `drift_compare` of backend/app/services/paper_analytics.py.
use stock_platform.Prelude.{
  ℕ, Bool, leb, if◌then◌else◌, List, [], ◌∷◌, ◌++◌, keep, length, ◌≡◌, refl, ap, ◌∙◌, Bool-cases,
  inl, inr,
}
use stock_platform.Prelude.Sort.{sort_on}
use stock_platform.Prelude.Dict.{Dict, lookup, contains, keys, of_rows}
use stock_platform.Prelude.Result.{Result, ok, ◌>>=◌, or_raise, key_error}
use stock_platform.Calendar.{Date, iso_week, pair_eq}
use stock_platform.Float.{Float, ◌⊖◌, ◌<?◌, nought, unit, is_zero, abs, divide}

pub record Week (F : Type 0) : Type 0 where
  pub week : ℕ × ℕ
  pub paper_ret : F
  pub backtest_ret : F
  pub diff : F

pub record Drift (F : Type 0) : Type 0 where
  pub weekly : List (Week F)
  pub cum_paper : F
  pub cum_backtest : F
  pub max_abs_weekly : F

-- The days that both curves have, in ascending order.
abbrev pub common_days : {F : Type 0} → Dict F → Dict F → List Date
common_days p b = sort_on (λ d. d) (keep (λ d. contains d b) (keys p))

abbrev pub same_week : Date → Date → Bool
same_week d e = pair_eq (iso_week d) (iso_week e)

-- The day joins the first week, or is one of its own.
abbrev pub join : Date → List (List Date) → List (List Date)
join d [] = (d ∷ []) ∷ []
join d ([] ∷ weeks) = (d ∷ []) ∷ weeks
join d ((e ∷ days) ∷ weeks) =
    if same_week d e then (d ∷ e ∷ days) ∷ weeks else (d ∷ []) ∷ (e ∷ days) ∷ weeks

-- Ascending days by their ISO week.
unfoldable pub by_week : List Date → List (List Date)
by_week [] = []
by_week (d ∷ days) = join d (by_week days)

abbrev flatten : List (List Date) → List Date
flatten [] = []
flatten (days ∷ weeks) = days ++ flatten weeks

flatten-join : (d : Date) (weeks : List (List Date)) → flatten (join d weeks) ≡ d ∷ flatten weeks
flatten-join d [] = refl
flatten-join d ([] ∷ weeks) = refl
flatten-join d ((e ∷ days) ∷ weeks) = elim (Bool-cases (same_week d e)) [
  | inl s ↦ rw s refl
  | inr s ↦ rw s refl
]

-- The weeks hold the days in their order, each of them once.
flatten-by_week : (days : List Date) → flatten (by_week days) ≡ days
unfolding by_week
flatten-by_week [] = refl
flatten-by_week (d ∷ days) =
    flatten-join d (by_week days) ∙ ap (λ rest. d ∷ rest) (flatten-by_week days)

abbrev final_day : Date → List Date → Date
final_day d [] = d
final_day d (e ∷ days) = final_day e days

module _ {F : Type 0} ⦃fl : Float F⦄ where
  abbrev at : Dict F → Date → Result F
  at curve d = or_raise (lookup d curve) key_error

  -- The return from the first day of a week to its last.
  abbrev week_return : Dict F → Date → List Date → Result F
  week_return curve d days = do
    last ← at curve (final_day d days)
    start ← at curve d
    ratio ← divide last start
    ok (ratio ⊖ unit)

  abbrev weekly_of : Dict F → Dict F → List (List Date) → Result (List (Week F))
  weekly_of p b [] = ok []
  weekly_of p b ([] ∷ weeks) = weekly_of p b weeks
  weekly_of p b ((d ∷ days) ∷ weeks) = do
    p_ret ← week_return p d days
    b_ret ← week_return b d days
    rest ← weekly_of p b weeks
    ok (
        record { week = iso_week d; paper_ret = p_ret; backtest_ret = b_ret; diff = p_ret ⊖ b_ret }
        ∷ rest)

  -- One day, or a curve that begins at zero, has no return.
  abbrev cum : Dict F → List Date → Result F
  cum curve [] = ok nought
  cum curve (d ∷ []) = ok nought
  cum curve (d ∷ e ∷ days) = do
    start ← at curve d
    last ← at curve (final_day e days)
    ratio ← if is_zero start then ok unit else divide last start
    ok (if is_zero start then nought else ratio ⊖ unit)

  abbrev largest : F → List (Week F) → F
  largest best [] = best
  largest best (w ∷ weekly) = largest (if best <? abs w.diff then abs w.diff else best) weekly

  abbrev largest_diff : List (Week F) → F
  largest_diff [] = nought
  largest_diff (w ∷ weekly) = largest (abs w.diff) weekly

  unfoldable pub drift_compare : (paper backtest : Dict F) → Result (Drift F)
  unfolding by_week divide
  drift_compare paper backtest = do
    let p = of_rows paper
    let b = of_rows backtest
    let common = common_days p b
    let weeks = by_week common
    weekly ← if leb 2 (length weeks) then weekly_of p b weeks else ok []
    cum_paper ← cum p common
    cum_backtest ← cum b common
    ok (record {
      weekly = weekly;
      cum_paper = cum_paper;
      cum_backtest = cum_backtest;
      max_abs_weekly = largest_diff weekly;
    })
