-- ===== src/Paper/Analytics/Cases.antt =====
-- The diff code by code: what `diff_orders` has for a code is what its loop yields there.
use stock_platform.Prelude.{
  ℕ, zero, suc, ◌≡◌, refl, ◌&&◌, ◌||◌, Bool, true, false, ◌==◌, Option, none, some, List, ==_iff,
  [], ◌∷◌, ◌++◌, keep, elem, arith, ap, sym, ◌∙◌, Bool-cases, inl, inr,
}
use stock_platform.Prelude.Dict.{Dict, lookup, get_or, keys}
use stock_platform.Prelude.Result.{Result, ok, >>=-parts}
use stock_platform.Float.{Float}
use stock_platform.Execution.{Code}
use stock_platform.Paper.Analytics.{
  OrderIntent, is_sell, is_buy, total_assets, code_intents, all_intents, sorted_set, diff_orders,
}
use stock_platform.Paper.Analytics.Codes.{
  ascending, ascending-sorted_set, elem-sorted_set, elem-above,
}

ok-inj : {A : Type 0} {a b : A} → ok a ≡ ok b → a ≡ b
ok-inj e = cc

module _ {F : Type 0} where
  abbrev pub is_for : Code → OrderIntent F → Bool
  is_for c i = i.stock_code == c

  -- No intent, or one for the code.
  abbrev pub single : Code → List (OrderIntent F) → Bool
  single c [] = true
  single c (i ∷ []) = is_for c i && (is_sell i || is_buy i)
  single c (_ ∷ _ ∷ _) = false

  append_nil : (xs : List (OrderIntent F)) → xs ++ [] ≡ xs
  append_nil [] = refl
  append_nil (x ∷ xs) = ap (λ l. x ∷ l) (append_nil xs)

  keep-append :
      (p : OrderIntent F → Bool) (xs ys : List (OrderIntent F))
      → keep p (xs ++ ys) ≡ keep p xs ++ keep p ys
  keep-append p [] ys = refl
  keep-append p (x ∷ xs) ys = ground (arith, keep-append p xs ys)

  keep-keep :
      (p q : OrderIntent F → Bool) (xs : List (OrderIntent F))
      → keep p (keep q xs) ≡ keep q (keep p xs)
  keep-keep p q [] = refl
  keep-keep p q (x ∷ xs) = ground (arith, keep-keep p q xs)

  keep-single :
      (c : Code) (xs : List (OrderIntent F)) → single c xs ≡ true → keep (is_for c) xs ≡ xs
  keep-single c [] h = refl
  keep-single c (i ∷ []) h = ground arith
  keep-single c (_ ∷ _ ∷ _) h = cc

  keep-single_ne :
      (c d : Code) (xs : List (OrderIntent F))
      → single d xs ≡ true
      → (c == d) ≡ false
      → keep (is_for c) xs ≡ []
  keep-single_ne c d [] h ne = refl
  keep-single_ne c d (i ∷ []) h ne = ground arith
  keep-single_ne c d (_ ∷ _ ∷ _) h ne = cc

  -- The sort leaves a single intent as it is.
  sort-single :
      (c : Code) (xs : List (OrderIntent F))
      → single c xs ≡ true
      → keep is_sell xs ++ keep is_buy xs ≡ xs
  sort-single c [] h = refl
  sort-single c (i ∷ []) h = ground arith
  sort-single c (_ ∷ _ ∷ _) h = cc

module _ {F : Type 0} ⦃fl : Float F⦄ where
  all_intents-absent :
      (f : Code → Result (List (OrderIntent F)))
      → ((d : Code) (ys : List (OrderIntent F)) → f d ≡ ok ys → single d ys ≡ true)
      → (c : Code) (codes : List Code) {xs : List (OrderIntent F)} → all_intents f codes ≡ ok xs
      → elem c codes ≡ false
      → keep (is_for c) xs ≡ []
  unfolding all_intents
  all_intents-absent f one c [] e h = ground arith
  all_intents-absent f one c (d ∷ codes) {xs = xs} e h =
      let (here, e1, rest) = >>=-parts {first = f d} e in
      let (there, e2, e3) = >>=-parts {first = all_intents f codes} rest in
      ground (
        arith,
        all_intents-absent f one c codes {xs = there},
        keep-append (is_for c) here there,
        keep-single_ne c d here (one d here e1),
        e2,
        e3,
      )

  all_intents-at :
      (f : Code → Result (List (OrderIntent F)))
      → ((d : Code) (ys : List (OrderIntent F)) → f d ≡ ok ys → single d ys ≡ true)
      → (c : Code) (codes : List Code) {xs : List (OrderIntent F)} → all_intents f codes ≡ ok xs
      → ascending codes ≡ true
      → elem c codes ≡ true
      → f c ≡ ok (keep (is_for c) xs)
  unfolding all_intents
  all_intents-at f one c [] e up h = cc
  all_intents-at f one c (d ∷ codes) {xs = xs} e up h =
      let (here, e1, rest) = >>=-parts {first = f d} e in
      let (there, e2, e3) = >>=-parts {first = all_intents f codes} rest in
      let both = ap (keep (is_for c)) (ok-inj e3) in
      let split = keep-append (is_for c) here there in
      elim (Bool-cases (c == d)) [
        | inl q ↦
            let p = (==_iff c d).0 q in
            let none_there =
              all_intents-absent f one c codes e2
                (ap (λ k. elem k codes) p ∙ elem-above d codes (ground arith)) in
            let own = keep-single c here (ap (λ k. single k here) p ∙ one d here e1) in
            ap f p ∙ (e1 ∙ ground (arith, own, none_there, both, split, append_nil here))
        | inr ne ↦
            let later = all_intents-at f one c codes e2 (ground arith) (ground arith) in
            let none_here = keep-single_ne c d here (one d here e1) ne in
            ground (arith, later, none_here, both, split)
      ]

  code_intents-single :
      (total tol buffer : F) (last_price : Dict F) (c : Code) (held : ℕ) (w : Option F)
      {xs : List (OrderIntent F)}
      → code_intents total tol buffer last_price c held w ≡ ok xs
      → single c xs ≡ true
  unfolding code_intents
  code_intents-single total tol buffer last_price c zero none e = ground arith
  code_intents-single total tol buffer last_price c zero (some w) e = grind (arith, >>=-parts)
  code_intents-single total tol buffer last_price c (suc n) none e = ground arith
  code_intents-single total tol buffer last_price c (suc n) (some w) e = grind (arith, >>=-parts)

  sorted-at :
      (c : Code) (xs : List (OrderIntent F))
      → single c (keep (is_for c) xs) ≡ true
      → keep (is_for c) (keep is_sell xs ++ keep is_buy xs) ≡ keep (is_for c) xs
  sorted-at c xs h =
      keep-append (is_for c) (keep is_sell xs) (keep is_buy xs)
      ∙ (ap (λ l. l ++ keep (is_for c) (keep is_buy xs)) (keep-keep (is_for c) is_sell xs)
          ∙ (ap (λ l. keep is_sell (keep (is_for c) xs) ++ l) (keep-keep (is_for c) is_buy xs)
              ∙ sort-single c (keep (is_for c) xs) h))

  pub code_intents-at :
      (current : Dict ℕ) (target last_price : Dict F) (cash tol buffer : F)
      {xs : List (OrderIntent F)}
      → diff_orders current target last_price cash tol buffer ≡ ok xs
      → (c : Code) → elem c (keys current ++ keys target) ≡ true
      → code_intents
          (total_assets current last_price cash)
          tol
          buffer
          last_price
          c
          (get_or 0 (lookup c current))
          (lookup c target)
        ≡ ok (keep (is_for c) xs)
  unfolding diff_orders
  code_intents-at current target last_price cash tol buffer {xs = xs} e c h =
      let total = total_assets current last_price cash in
      let codes = sorted_set (keys current ++ keys target) in
      let of_code : Code → Result (List (OrderIntent F)) = λ (d : Code).
        code_intents total tol buffer last_price d (get_or 0 (lookup d current))
          (lookup d target) in
      let one : (d : Code) (ys : List (OrderIntent F)) → of_code d ≡ ok ys → single d ys ≡ true =
        λ d ys k.
          code_intents-single total tol buffer last_price d (get_or 0 (lookup d current))
            (lookup d target) k in
      let (all, e1, e2) = >>=-parts {first = all_intents of_code codes} e in
      let at =
        all_intents-at of_code one c codes {xs = all} e1
          (ascending-sorted_set (keys current ++ keys target))
          (elem-sorted_set c (keys current ++ keys target) ∙ h) in
      let alone = one c (keep (is_for c) all) at in
      let same = ap (keep (is_for c)) (ok-inj e2) in
      let sorted = sorted-at c all alone in at ∙ ap ok (sym sorted ∙ same)
