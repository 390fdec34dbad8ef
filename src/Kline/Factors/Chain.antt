-- ===== src/Kline/Factors/Chain.antt =====
-- Laws of `compute_factor_chain` beside `detect_factor_events` (backend/app/data/sync_kline.py).
use stock_platform.Prelude.{
  ◌≡◌, refl, arith, Bool, true, false, Option, none, some, List, [], ◌∷◌, elem, ap, Option-cases,
  inl, inr,
}
use stock_platform.Float.{Float, unit}
use stock_platform.Calendar.{Date}
use stock_platform.Kline.Factors.{
  Move, Link, jump_of, jump, deviates, next_close, next_factor, chain_from, compute_factor_chain,
  events_from, detect_factor_events,
}

module _ {F : Type 0} ⦃fl : Float F⦄ where
  abbrev is_jump : Option (F × F) → Bool
  is_jump none = false
  is_jump (some _) = true

  deviates-jump_of :
      (prev close pct : Option F) → deviates prev close pct ≡ is_jump (jump_of prev close pct)
  deviates-jump_of none close pct = refl
  deviates-jump_of (some prev) none pct = refl
  deviates-jump_of (some prev) (some close) none = refl
  deviates-jump_of (some prev) (some close) (some pct) = ground arith

  -- The two conditions that the source writes out are one.
  pub deviates-jump :
      (prev : Option F) (m : Move F) → deviates prev m.close m.pct_change ≡ is_jump (jump prev m)
  deviates-jump prev m = deviates-jump_of prev m.close m.pct_change

  -- The first link, if there is one.
  abbrev pub Starts : F → List (Link F) → Type 0
  Starts factor [] = Unit
  Starts factor (l ∷ links) = l.adj_factor ≡ factor

  Starts-chain_from :
      (factor : F) (moves : List (Move F)) → Starts factor (chain_from factor none moves)
  Starts-chain_from factor [] = tt
  Starts-chain_from factor (m ∷ moves) = ground arith

  -- Only at an event may a link differ from the one before it.
  abbrev pub Follows : List Date → F → List (Link F) → Type 0
  Follows events factor [] = Unit
  Follows events factor (l ∷ links) =
      (elem l.trade_date events ≡ false → l.adj_factor ≡ factor) × Follows events l.adj_factor links

  abbrev pub dates_of : List (Link F) → List Date
  dates_of [] = []
  dates_of (l ∷ links) = l.trade_date ∷ dates_of links

  abbrev pub move_dates : List (Move F) → List Date
  move_dates [] = []
  move_dates (m ∷ moves) = m.trade_date ∷ move_dates moves

  chain_from-Follows :
      (all : List Date) (factor : F) (prev : Option F) (moves : List (Move F))
      → ((d : Date) → elem d (events_from prev moves) ≡ true → elem d all ≡ true)
      → Follows all factor (chain_from factor prev moves)
  chain_from-Follows all factor prev [] sub = tt
  chain_from-Follows all factor prev (m ∷ moves) sub =
      let next = next_factor factor (jump prev m) in
      let rest = events_from (next_close prev m.close) moves in
      let both = deviates-jump prev m in
      elim (Option-cases (jump prev m)) [
        | inl e ↦ (
          λ out. ground (arith, e),
          chain_from-Follows all next (next_close prev m.close) moves
              (λ d h. ground (arith, e, both, h, sub d)),
        )
        | inr (r, e) ↦ (
          λ out. ground (arith, e, both, out, sub m.trade_date),
          chain_from-Follows all next (next_close prev m.close) moves
              (λ d h. ground (arith, e, both, h, sub d)),
        )
      ]

  dates-chain_from :
      (factor : F) (prev : Option F) (moves : List (Move F))
      → dates_of (chain_from factor prev moves) ≡ move_dates moves
  dates-chain_from factor prev [] = refl
  dates-chain_from factor prev (m ∷ moves) =
      ap (λ l. m.trade_date ∷ l)
        (dates-chain_from (next_factor factor (jump prev m)) (next_close prev m.close) moves)

  -- The chain has one factor for each bar, on its date; the first is 1, also where the first bar has
  -- a true return, and a factor differs from the one before it only on a date that the detection of corporate actions reports.
  pub compute_factor_chain-Follows :
      (moves : List (Move F))
      → (dates_of (compute_factor_chain moves) ≡ move_dates moves)
        × Starts unit (compute_factor_chain moves)
        × Follows (detect_factor_events moves) unit (compute_factor_chain moves)
  unfolding compute_factor_chain detect_factor_events
  compute_factor_chain-Follows moves = (
    dates-chain_from unit none moves,
    Starts-chain_from unit moves,
    chain_from-Follows (events_from none moves) unit none moves (λ d h. h),
  )
