-- ===== src/Samples/Laws.antt =====
-- Laws of `apply_sample_filters` (backend/app/services/sample_filters.py).
use stock_platform.Prelude.{
  ◌+◌, ◌==◌, ◌≡◌, refl, arith, ◌&&◌, ◌||◌, Bool, true, false, if◌then◌else◌, Option, none, some,
  List, [], ◌∷◌, keep, length, ap, ◌∙◌, sym, subst, Option-cases, inl, inr,
}
use stock_platform.Prelude.Dict.{Dict, lookup}
use stock_platform.Prelude.Result.{ok, >>=-parts}
use stock_platform.Float.{Float, divide}
use stock_platform.Calendar.{Date}
use stock_platform.Execution.{Code, nonzero}
use stock_platform.TradeStatus.Compute.{Status}
use stock_platform.Samples.{
  Flags, Judged, Meta, Excluded, set, status_of, is_filtering, judge_codes, apply_sample_filters,
  filtered, is_empty,
}

-- A reason that a flag asks for speaks against the row.
abbrev pub is_excluded : Flags → Option Judged → Bool
is_excluded f none = false
is_excluded f (some (is_st, suspended, buyable)) =
    f.exclude_st && set is_st
    || f.exclude_suspended && nonzero suspended
    || f.only_tradable && buyable == 0

abbrev pub is_kept : Flags → Dict Judged → Code → Bool
is_kept f status c = if is_excluded f (lookup c status) then false else true

judge_codes-kept :
    (f : Flags) (status : Dict Judged) (codes : List Code)
    → (judge_codes f status codes).0 ≡ keep (is_kept f status) codes
judge_codes-kept f status [] = refl
judge_codes-kept f status (c ∷ codes) = elim (Option-cases (lookup c status)) [
  | inl e ↦ ground (arith, e, judge_codes-kept f status codes)
  | inr ((is_st, suspended, buyable), e) ↦ ground (arith, e, judge_codes-kept f status codes)
]

judge_codes-counts :
    (f : Flags) (status : Dict Judged) (codes : List Code)
    → let (out, ex) = judge_codes f status codes in
      length codes ≡ length out + ex.st + ex.suspended + ex.untradable
judge_codes-counts f status [] = refl
judge_codes-counts f status (c ∷ codes) = elim (Option-cases (lookup c status)) [
  | inl e ↦ ground (arith, e, judge_codes-counts f status codes)
  | inr ((is_st, suspended, buyable), e) ↦ ground (arith, e, judge_codes-counts f status codes)
]

ok-inj : {A : Type 0} {a b : A} → ok a ≡ ok b → a ≡ b
ok-inj e = cc

module _ {F : Type 0} ⦃fl : Float F⦄ where
  filtered_lem :
      (rows : List Status) (codes : List Code) (d : Date) (f : Flags) {kept : List Code}
      {meta : Meta F}
      → filtered rows codes d f ≡ ok (kept, meta)
      → (kept ≡ keep (is_kept f (status_of rows codes d)) codes)
        × ((ex : Excluded) × (meta.excluded ≡ some ex)
            × (length codes ≡ length kept + ex.st + ex.suspended + ex.untradable))
  filtered_lem rows codes d f {kept = kept} {meta = meta} e =
      let status = status_of rows codes d in
      let judged = judge_codes f status codes in
      let (share, _, e2) =
        >>=-parts {first = divide (fl.of_ℕ (length status)) (fl.of_ℕ (length codes))} e in
      let same : (judged.0 ≡ kept) × (some judged.1 ≡ meta.excluded) =
        let p = ok-inj e2 in
        (ap (λ (p : List Code × Meta F). p.0) p, ap (λ (p : List Code × Meta F). p.1.excluded) p) in
      (
        sym same.0 ∙ judge_codes-kept f status codes,
        (judged.1, sym same.1, ground (arith, ap length same.0, judge_codes-counts f status codes)),
      )

  -- Where a flag is set and a code is given, the codes kept are, in their order, those that no flag
  -- speaks against, each code without a status row among them; and the codes kept add up with the
  -- counted exclusions to the codes given, so that no code is excluded twice or without a count.
  pub apply_sample_filters_lem :
      (rows : List Status) (codes : List Code) (d : Date) (f : Flags) {kept : List Code}
      {meta : Meta F}
      → is_filtering f ≡ true
      → is_empty codes ≡ false
      → apply_sample_filters rows codes d f ≡ ok (kept, meta)
      → (kept ≡ keep (is_kept f (status_of rows codes d)) codes)
        × ((ex : Excluded) × (meta.excluded ≡ some ex)
            × (length codes ≡ length kept + ex.st + ex.suspended + ex.untradable))
  unfolding apply_sample_filters
  apply_sample_filters_lem rows [] d f flagged given e = ground arith
  apply_sample_filters_lem rows (c ∷ codes) d f {kept = kept} {meta = meta} flagged given e =
      let judged = filtered rows (c ∷ codes) d f in
      filtered_lem rows (c ∷ codes) d f (
        subst
          (λ on.
            (if (if on then false else true)
              then ok (c ∷ codes, record { coverage = none; excluded = none })
              else judged)
            ≡ ok (kept, meta))
          flagged e)
