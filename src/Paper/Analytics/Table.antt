-- ===== src/Paper/Analytics/Table.antt =====
-- The case table of `diff_orders` (backend/app/services/paper_analytics.py).
use stock_platform.Prelude.{
  ℕ, zero, suc, ◌≡◌, true, false, Option, none, some, List, [], ◌∷◌, ◌++◌, keep, elem, arith,
  Bool-cases, ◌⊎◌, inl, inr, if◌then◌else◌,
}
use stock_platform.Prelude.Int.{ℤ, pos}
use stock_platform.Prelude.Dict.{Dict, lookup, get_or, keys}
use stock_platform.Prelude.Result.{ok, >>=-parts}
use stock_platform.Float.{Float, ◌⊖◌, ◌⊗◌, ◌<?◌, ◌≤?◌, nought, abs, divide}
use stock_platform.Execution.{Code, buy, sell}
use stock_platform.Paper.Analytics.{
  OrderIntent, total_assets, buy_shares, buy_intent, intent, actual_weight, code_intents,
  diff_orders,
}
use stock_platform.Paper.Analytics.Cases.{is_for, code_intents-at}

module _ {F : Type 0} ⦃fl : Float F⦄ where
  -- The case table for one code: its price, the shares held, its target weight, and the intents.
  abbrev pub IsBuy : F → F → Code → Option F → F → List (OrderIntent F) → Type 0
  IsBuy total buffer c price weight xs =
      (n : ℤ) × (buy_shares total buffer weight price ≡ ok n)
      × (xs ≡ record { stock_code = c; side = buy; target_weight = weight; est_shares = n } ∷ [])

  abbrev pub IsSell : Code → ℕ → F → List (OrderIntent F) → Type 0
  IsSell c held weight xs =
      xs
      ≡ record { stock_code = c; side = sell; target_weight = weight; est_shares = pos held } ∷ []

  abbrev pub IsAdjusted : F → F → F → Code → Option F → ℕ → F → F → List (OrderIntent F) → Type 0
  IsAdjusted total tol buffer c price held weight actual xs =
      ((abs (weight ⊖ actual) ≤? tol ≡ true) × (xs ≡ []))
      ⊎ (((abs (weight ⊖ actual) ≤? tol ≡ false)
            × (actual <? weight ≡ true)
            × IsBuy total buffer c price weight xs)
          ⊎ ((abs (weight ⊖ actual) ≤? tol ≡ false)
              × (actual <? weight ≡ false)
              × IsSell c held weight xs))

  abbrev pub InTable : F → F → F → Code → Option F → ℕ → Option F → List (OrderIntent F) → Type 0
  InTable total tol buffer c price zero none xs = xs ≡ []
  InTable total tol buffer c price zero (some weight) xs = IsBuy total buffer c price weight xs
  InTable total tol buffer c price (suc n) none xs = IsSell c (suc n) nought xs
  InTable total tol buffer c price (suc n) (some weight) xs =
      (actual : F) × ((if nought <? total
          then divide (get_or nought price ⊗ fl.of_ℕ (suc n)) total
          else ok nought)
        ≡ ok actual)
      × IsAdjusted total tol buffer c price (suc n) weight actual xs

  adjust-IsAdjusted :
      (total tol buffer : F) (last_price : Dict F) (c : Code) (held : ℕ) (weight actual : F)
      {xs : List (OrderIntent F)}
      → (let bought = buy_intent total buffer last_price c weight in
          let sold : OrderIntent F = record {
            stock_code = c;
            side = sell;
            target_weight = weight;
            est_shares = pos held;
          } in
          let adjusted = if actual <? weight then bought else ok (sold ∷ []) in
          if abs (weight ⊖ actual) ≤? tol then ok [] else adjusted)
        ≡ ok xs
      → IsAdjusted total tol buffer c (lookup c last_price) held weight actual xs
  adjust-IsAdjusted total tol buffer last_price c held weight actual {xs = xs} e =
      elim (Bool-cases (abs (weight ⊖ actual) ≤? tol)) [
        | inl near ↦ inl (near, ground (arith, near, e))
        | inr far ↦ elim (Bool-cases (actual <? weight)) [
          | inl under ↦
              let (n, size, rest) =
                >>=-parts {first = buy_shares total buffer weight (lookup c last_price)}
                  {next = λ n. ok (intent c buy weight n ∷ [])} {t = xs}
                  (ground (arith, far, under, e)) in
              inr (inl (far, under, (n, size, ground (arith, rest))))
          | inr over ↦ inr (inr (far, over, ground (arith, far, over, e)))
        ]
      ]

  code_intents-InTable :
      (total tol buffer : F) (last_price : Dict F) (c : Code) (held : ℕ) (w : Option F)
      {xs : List (OrderIntent F)}
      → code_intents total tol buffer last_price c held w ≡ ok xs
      → InTable total tol buffer c (lookup c last_price) held w xs
  unfolding code_intents
  code_intents-InTable total tol buffer last_price c zero none e = ground arith
  code_intents-InTable total tol buffer last_price c zero (some w) {xs = xs} e =
      let (n, size, rest) = >>=-parts {first = buy_shares total buffer w (lookup c last_price)} e in
      (n, size, ground (arith, rest))
  code_intents-InTable total tol buffer last_price c (suc n) none e = ground arith
  code_intents-InTable total tol buffer last_price c (suc n) (some w) {xs = xs} e =
      let value = get_or nought (lookup c last_price) ⊗ fl.of_ℕ (suc n) in
      let (actual, share, rest) = >>=-parts {first = actual_weight total value} e in
      (
        actual,
        share,
        adjust-IsAdjusted total tol buffer last_price c (suc n) w actual {xs = xs} rest,
      )

  -- The diff, once it returns, has for each code that is held or a target exactly the intents of the
  -- case table: none for a code of zero shares without a weight; one buy, of the size for the weight,
  -- for a target that is not held; one sell of all shares, at weight zero, for a holding that is no
  -- target; and for a holding that is a target, by its share in the total (zero where the total is
  -- not positive), none within the tolerance, a buy below the weight, else a sell of all shares.
  pub diff_orders_at :
      (current : Dict ℕ) (target last_price : Dict F) (cash tol buffer : F)
      {xs : List (OrderIntent F)}
      → diff_orders current target last_price cash tol buffer ≡ ok xs
      → (c : Code) → elem c (keys current ++ keys target) ≡ true
      → InTable
          (total_assets current last_price cash)
          tol
          buffer
          c
          (lookup c last_price)
          (get_or 0 (lookup c current))
          (lookup c target)
          (keep (is_for c) xs)
  diff_orders_at current target last_price cash tol buffer {xs = xs} e c h =
      code_intents-InTable (total_assets current last_price cash) tol buffer last_price c
        (get_or 0 (lookup c current)) (lookup c target)
        (code_intents-at current target last_price cash tol buffer {xs = xs} e c h)
