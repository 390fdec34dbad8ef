-- ===== src/Factor/Cache/Latest.antt =====
-- Lemmas on `latest_le` (backend/app/factor/cache.py).
use stock_platform.Prelude.{
  ℕ, zero, suc, ◌==◌, ◌≤◌, ◌≡◌, refl, arith, ◌&&◌, Bool, true, false, leb, if◌then◌else◌, Option,
  none, some, List, [], ◌∷◌, keep, Bool-cases, inl, inr,
}
use stock_platform.Calendar.{Date}
use stock_platform.Factor.Cache.{Row, bisect_right, before_index, latest_le}

module _ {V : Type 0} where
  -- Dates ascend, and none is before the day.
  abbrev pub from : Date → List (Row V) → Bool
  from d [] = true
  from d (r ∷ rows) = leb d r.date && from d rows

  abbrev pub ascends : List (Row V) → Bool
  ascends [] = true
  ascends (r ∷ rows) = from r.date rows && ascends rows

  abbrev is_none : Option (Row V) → Bool
  is_none none = true
  is_none (some _) = false

  -- The search by recursion.
  abbrev pub latest : List (Row V) → Date → Option (Row V)
  latest [] d = none
  latest (r ∷ rows) d =
      let later : Option (Row V) = elim (latest rows d) [ none ↦ some r | some s ↦ some s ] in
      if leb r.date d then later else none

  before_index-cons :
      (r : Row V) (rows : List (Row V)) (n : ℕ)
      → before_index (r ∷ rows) (suc n) ≡ (if n == 0 then some r else before_index rows n)
  before_index-cons r rows zero = refl
  before_index-cons r rows (suc n) = ground arith

  latest_none :
      (rows : List (Row V)) (d : Date) → (bisect_right rows d == 0) ≡ is_none (latest rows d)
  latest_none [] d = refl
  latest_none (r ∷ rows) d = ground (arith, latest_none rows d)

  pub latest_le-latest : (rows : List (Row V)) (d : Date) → latest_le rows d ≡ latest rows d
  unfolding latest_le
  latest_le-latest [] d = refl
  latest_le-latest (r ∷ rows) d = ground (
    arith,
    latest_le-latest rows d,
    before_index-cons r rows (bisect_right rows d),
    latest_none rows d,
  )

  latest_past :
      (rows : List (Row V)) (d end : Date)
      → from (suc d) rows ≡ true
      → latest (keep (λ (r : Row V). leb r.date end) rows) d ≡ none
  latest_past [] d end h = refl
  latest_past (r ∷ rows) d end h = ground (arith, h, latest_past rows d end)

  from_trans : (rows : List (Row V)) (d e : Date) → d ≤ e → from e rows ≡ true → from d rows ≡ true
  from_trans [] d e le h = refl
  from_trans (r ∷ rows) d e le h = ground (arith, h, le, from_trans rows d e le)

  pub latest-keep :
      (rows : List (Row V)) (d end : Date)
      → ascends rows ≡ true
      → d ≤ end
      → latest (keep (λ (r : Row V). leb r.date end) rows) d ≡ latest rows d
  latest-keep [] d end up le = refl
  latest-keep (r ∷ rows) d end up le = elim (Bool-cases (leb r.date d)) [
    | inl k ↦ ground (arith, k, up, le, latest-keep rows d end)
    | inr k ↦
        let past =
          latest_past rows d end
            (from_trans rows (suc d) r.date (ground (arith, k)) (ground (arith, up))) in
        ground (arith, k, past)
  ]
