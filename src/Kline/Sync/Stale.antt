-- ===== src/Kline/Sync/Stale.antt =====
-- Laws of `maintain_factor_incremental` (backend/app/data/sync_kline.py).
use stock_platform.Prelude.{
  ◌==◌, ◌≡◌, refl, arith, ◌&&◌, Bool, true, false, Option, none, some, List, [], ◌∷◌, first, exists,
  ap, ◌∙◌, sym, subst, Option-cases, inl, inr,
}
use stock_platform.Prelude.Rows.{put, first-write}
use stock_platform.Prelude.Sort.{sort_on, exists-sort_on}
use stock_platform.Float.{Float, ◌⊗◌, unit}
use stock_platform.Calendar.{Date}
use stock_platform.Execution.{Code}
use stock_platform.Kline.Rows.{Bar}
use stock_platform.Kline.Factors.{
  Move, Link, Factor, jump, next_close, chain_from, compute_factor_chain, events_from,
  detect_factor_events, same_factor, write_factors, upsert_factor_rows,
}
use stock_platform.Kline.Factors.Chain.{deviates-jump}
use stock_platform.Kline.Sync.{
  Store, bar_date, moves_of, seed_of, first_date, bar_before, latest_factor, rebase, has_events,
  extend_chain, maintain_factor_incremental,
}

module _ {F : Type 0} ⦃fl : Float F⦄ where
  abbrev pub is_factor : Code → Date → Factor F → Bool
  is_factor c d f = f.stock_code == c && f.trade_date == d

  -- Links of one value.
  abbrev flat : F → List (Move F) → List (Link F)
  flat x [] = []
  flat x (m ∷ moves) = record { trade_date = m.trade_date; adj_factor = x } ∷ flat x moves

  chain_from-flat :
      (x : F) (prev : Option F) (moves : List (Move F))
      → events_from prev moves ≡ []
      → chain_from x prev moves ≡ flat x moves
  chain_from-flat x prev [] e = refl
  chain_from-flat x prev (m ∷ moves) e = elim (Option-cases (jump prev m)) [
    | inl k ↦
        ground
          (arith, k, e, deviates-jump prev m, chain_from-flat x (next_close prev m.close) moves)
    | inr (r, k) ↦ ground (arith, k, e, deviates-jump prev m)
  ]

  rebase-flat :
      (base x : F) (moves : List (Move F)) → rebase base (flat x moves) ≡ flat (x ⊗ base) moves
  rebase-flat base x [] = refl
  rebase-flat base x (m ∷ moves) =
      ap (λ l. record { trade_date = m.trade_date; adj_factor = x ⊗ base } ∷ l)
        (rebase-flat base x moves)

  abbrev has_date : Date → List (Move F) → Bool
  has_date d = exists (λ (m : Move F). m.trade_date == d)

  abbrev pub row_at : Code → Date → F → Factor F
  row_at c d x = record {
    stock_code = c;
    trade_date = d;
    adj_factor = fl.round x 8;
    anchored = false;
  }

  -- The flat rows of one value under their keys.
  first-write_factors :
      (c : Code) (d : Date) (x : F) (moves : List (Move F)) (table : List (Factor F))
      → (has_date d moves ≡ false → first (is_factor c d) table ≡ some (row_at c d x))
      → first (is_factor c d) (write_factors c false (flat x moves) table) ≡ some (row_at c d x)
  first-write_factors c d x [] table h = h refl
  first-write_factors c d x (m ∷ moves) table h =
      let row = row_at c m.trade_date x in
      first-write_factors c d x moves (put (same_factor row) (λ _. row) row table) (λ out. ground (
        arith,
        out,
        h,
        first-write (is_factor c d) (same_factor row) row table (ground arith)
            (λ k y. ground (arith, k)) (λ k y e. ground (arith, k, e)),
      ))

  has_date-moves_of :
      (d : Date) (bars : List (Bar F))
      → has_date d (moves_of bars) ≡ exists (λ (b : Bar F). b.trade_date == d) bars
  has_date-moves_of d [] = refl
  has_date-moves_of d (b ∷ bars) = ground (arith, has_date-moves_of d bars)

  -- New bars without a corporate action among them get the last stored factor, each of them, however
  -- far before the date of that factor they lie, and nothing is re-anchored: a window of old bars
  -- that is fetched again loses the factors of its own time.
  pub maintain_factor_incremental_stale :
      (c : Code) (b : Bar F) (bars : List (Bar F)) (store : Store F) (last : Factor F) (d : Date)
      → latest_factor c store.factors ≡ some last
      → detect_factor_events (
          seed_of last (bar_before c (first_date b.trade_date bars) store.klines)
          ∷ moves_of (sort_on bar_date (b ∷ bars)))
        ≡ []
      → exists (λ (x : Bar F). x.trade_date == d) (b ∷ bars) ≡ true
      → let (store', event) = maintain_factor_incremental c (b ∷ bars) store in
        (event ≡ false)
        × (first (is_factor c d) store'.factors ≡ some (row_at c d (unit ⊗ last.adj_factor)))
  unfolding maintain_factor_incremental upsert_factor_rows compute_factor_chain detect_factor_events
  maintain_factor_incremental_stale c b bars store last d e quiet new =
      let ordered = moves_of (sort_on bar_date (b ∷ bars)) in
      let seed = seed_of last (bar_before c (first_date b.trade_date bars) store.klines) in
      let prev = next_close none seed.close in
      let value = unit ⊗ last.adj_factor in
      let same : rebase last.adj_factor (chain_from unit prev ordered) ≡ flat value ordered =
        ap (rebase last.adj_factor) (chain_from-flat unit prev ordered quiet)
        ∙ rebase-flat last.adj_factor unit ordered in
      let wrote = first-write_factors c d value ordered store.factors (λ out. ground (
        arith,
        out,
        new,
        has_date-moves_of d (sort_on bar_date (b ∷ bars)),
        exists-sort_on bar_date (λ (x : Bar F). x.trade_date == d) (b ∷ bars),
      )) in
      subst
        (λ found.
          ((extend_chain c b bars store found).1 ≡ false)
          × (first (is_factor c d) (extend_chain c b bars store found).0.factors
              ≡ some (row_at c d value)))
        (sym e)
        (
          ap has_events quiet,
          ap (λ links. first (is_factor c d) (write_factors c false links store.factors)) same
              ∙ wrote,
        )
