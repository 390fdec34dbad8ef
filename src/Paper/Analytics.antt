-- ===== src/Paper/Analytics.antt =====
-- Pure functions of the engine: `diff_orders`, `alert_eval` and `holding_jaccard` of
-- backend/app/services/paper_analytics.py.
pub mod Codes
pub mod Cases
pub mod Table
pub mod Drift
use stock_platform.Prelude.{
  ℕ, zero, suc, ◌+◌, ◌-◌, ◌*◌, ◌==◌, Bool, true, false, ltb, if◌then◌else◌, Option, none, some,
  List, [], ◌∷◌, ◌++◌, keep, elem, length,
}
use stock_platform.Prelude.Int.{ℤ, pos, negsuc}
use stock_platform.Prelude.Dict.{Dict, lookup, get_or, keys}
use stock_platform.Prelude.Result.{Result, ok, not_integral, ◌>>=◌, or_raise}
use stock_platform.Float.{Float, ◌⊕◌, ◌⊖◌, ◌⊗◌, ◌<?◌, ◌≤?◌, nought, unit, is_zero, divide, abs, sum}
use stock_platform.Execution.{Code, Side, buy, sell, other}
use stock_platform.Paper.Tables.{CheckStatus, pass, warn, fail}

pub record OrderIntent (F : Type 0) : Type 0 where
  pub stock_code : Code
  pub side : Side
  pub target_weight : F
  pub est_shares : ℤ

-- `sorted(set(codes))`: each code once, ascending.
abbrev pub insert_code : Code → List Code → List Code
insert_code c [] = c ∷ []
insert_code c (d ∷ codes) =
    let rest = insert_code c codes in
    if ltb c d then c ∷ d ∷ codes else if c == d then d ∷ codes else d ∷ rest

unfoldable pub sorted_set : List Code → List Code
sorted_set [] = []
sorted_set (c ∷ codes) = insert_code c (sorted_set codes)

-- `lots * lot` for whole lots of 100 shares.
abbrev pub times_lot : ℤ → ℤ
times_lot (pos n) = pos (n * 100)
times_lot (negsuc n) = negsuc (n * 100 + 99)

module _ {F : Type 0} where
  abbrev pub is_sell : OrderIntent F → Bool
  is_sell i = elim i.side [ buy ↦ false | sell ↦ true | other ↦ false ]

  abbrev pub is_buy : OrderIntent F → Bool
  is_buy i = elim i.side [ buy ↦ true | sell ↦ false | other ↦ false ]

module _ {F : Type 0} ⦃fl : Float F⦄ where
  abbrev market_values : Dict ℕ → Dict F → List F
  market_values [] last_price = []
  market_values ((c, sh) ∷ current) last_price =
      get_or nought (lookup c last_price) ⊗ fl.of_ℕ sh ∷ market_values current last_price

  abbrev pub total_assets : Dict ℕ → Dict F → F → F
  total_assets current last_price cash = sum (market_values current last_price) ⊕ cash

  -- The share count of a buy; `price` is falsy if it is missing or zero.
  unfoldable pub buy_shares : F → F → F → Option F → Result ℤ
  buy_shares total buffer weight none = ok (pos 0)
  buy_shares total buffer weight (some price) =
      let sized = do
        a ← divide (weight ⊗ total ⊗ (unit ⊖ buffer)) price
        b ← divide a (fl.of_ℕ 100)
        n ← or_raise (fl.floor b) not_integral
        ok (times_lot n)
      in if is_zero price then ok (pos 0) else if price ≤? nought then ok (pos 0) else sized

  -- The weight of a held code: its value over the total, or 0 where the total is not positive.
  abbrev pub actual_weight : F → F → Result F
  actual_weight total value =
      let share = divide value total in if nought <? total then share else ok nought

  abbrev intent : Code → Side → F → ℤ → OrderIntent F
  intent c side w n = record { stock_code = c; side = side; target_weight = w; est_shares = n }

  abbrev buy_intent : F → F → Dict F → Code → F → Result (List (OrderIntent F))
  buy_intent total buffer last_price c w = do
    n ← buy_shares total buffer w (lookup c last_price)
    ok (intent c buy w n ∷ [])

  -- A code that is held and a target: untouched within the tolerance, else adjusted.
  abbrev adjust : F → F → F → Dict F → Code → ℕ → F → Result (List (OrderIntent F))
  adjust total tol buffer last_price c held w = do
    actual ← actual_weight total (get_or nought (lookup c last_price) ⊗ fl.of_ℕ held)
    let bought = buy_intent total buffer last_price c w
    let adjusted = if actual <? w then bought else ok (intent c sell w (pos held) ∷ [])
    if abs (w ⊖ actual) ≤? tol then ok [] else adjusted

  -- The intents for one code; zero shares count as not held.
  unfoldable pub code_intents :
      F → F → F → Dict F → Code → ℕ → Option F → Result (List (OrderIntent F))
  code_intents total tol buffer last_price c zero none = ok []
  code_intents total tol buffer last_price c zero (some w) = buy_intent total buffer last_price c w
  code_intents total tol buffer last_price c (suc n) none =
      ok (intent c sell nought (pos (suc n)) ∷ [])
  code_intents total tol buffer last_price c (suc n) (some w) =
      adjust total tol buffer last_price c (suc n) w

  unfoldable pub all_intents :
      (Code → Result (List (OrderIntent F))) → List Code → Result (List (OrderIntent F))
  all_intents f [] = ok []
  all_intents f (c ∷ codes) =
      let rest = all_intents f codes in do here ← f c; there ← rest; ok (here ++ there)

  -- The final sort puts the sells first. It is stable and the codes come in ascending order.
  unfoldable pub diff_orders : Dict ℕ → Dict F → Dict F → F → F → F → Result (List (OrderIntent F))
  unfolding all_intents code_intents sorted_set
  diff_orders current target last_price cash tol buffer = do
    let total = total_assets current last_price cash
    let of_code = λ (c : Code).
        code_intents total tol buffer last_price c (get_or 0 (lookup c current)) (lookup c target)
    intents ← all_intents of_code (sorted_set (keys current ++ keys target))
    ok (keep is_sell intents ++ keep is_buy intents)

  unfoldable pub alert_eval : Option F → F → F → Bool → CheckStatus
  alert_eval none warn_limit fail_limit lower_is_bad = warn
  alert_eval (some value) warn_limit fail_limit true =
      if value <? fail_limit then fail else if value <? warn_limit then warn else pass
  alert_eval (some value) warn_limit fail_limit false =
      if fail_limit <? value then fail else if warn_limit <? value then warn else pass

  -- `a` and `b` are sets, so lists of different codes.
  unfoldable pub holding_jaccard : List Code → List Code → Result F
  holding_jaccard a b =
      let shared = length (keep (λ c. elem c b) a) in
      let total = length a + length b - shared in
      let ratio = divide (fl.of_ℕ shared) (fl.of_ℕ total) in if total == 0 then ok unit else ratio
