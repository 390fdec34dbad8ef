-- ===== src/Universe/Snapshot.antt =====
-- Laws of `write_pool_snapshot` and `sync_pool_snapshot`.
use stock_platform.Prelude.{
  ℕ, ◌≡◌, refl, arith, Bool, not, Option, none, some, List, [], ◌∷◌, ◌++◌, keep, length, All, ◌∙◌,
  ap,
}
use stock_platform.Prelude.Dict.{Dict}
use stock_platform.Float.{Float}
use stock_platform.Calendar.{Date}
use stock_platform.Execution.{Code}
use stock_platform.Universe.{
  Spot, PoolRow, is_earlier, is_replaced, industries_of, prior_industries, pool_row, add_row,
  rows_of, replace_rows, write_pool_snapshot, sync_pool_snapshot,
}

module _ {F : Type 0} ⦃fl : Float F⦄ (name : ℕ) (day : Date) where
  -- The rows of the snapshot.
  abbrev Written : List (PoolRow F) → Type 0
  Written = All (λ (r : PoolRow F). (r.pool_name ≡ name) × (r.trade_date ≡ day))

  abbrev stays : PoolRow F → Bool
  stays r = not (is_replaced name day r)

  add_row-Written :
      (industries : Dict (Option ℕ)) (code : Option Code) (s : Spot F) (rows : List (PoolRow F))
      → Written rows
      → Written (add_row name day industries code s rows)
  unfolding pool_row
  add_row-Written industries none s rows h = h
  add_row-Written industries (some code) s rows h = ((refl, refl), h)

  rows_of-Written :
      (industries : Dict (Option ℕ)) (spots : List (Spot F))
      → Written (rows_of name day industries spots)
  rows_of-Written industries [] = tt
  rows_of-Written industries (s ∷ spots) =
      add_row-Written industries s.stock_code s (rows_of name day industries spots)
        (rows_of-Written industries spots)

  earlier-Written : (rows : List (PoolRow F)) → Written rows → keep (is_earlier day) rows ≡ []
  earlier-Written [] h = refl
  earlier-Written (r ∷ rows) ((n, d), h) = ground (arith, n, d, earlier-Written rows h)

  stays-Written : (rows : List (PoolRow F)) → Written rows → keep stays rows ≡ []
  stays-Written [] h = refl
  stays-Written (r ∷ rows) ((n, d), h) = ground (arith, n, d, stays-Written rows h)

  earlier-replaced :
      (table rows : List (PoolRow F))
      → Written rows
      → keep (is_earlier day) (keep stays table ++ rows) ≡ keep (is_earlier day) table
  earlier-replaced [] rows h = earlier-Written rows h
  earlier-replaced (r ∷ table) rows h = ground (arith, earlier-replaced table rows h)

  stays-replaced :
      (table rows : List (PoolRow F))
      → Written rows
      → keep stays (keep stays table ++ rows) ≡ keep stays table
  stays-replaced [] rows h = stays-Written rows h
  stays-replaced (r ∷ table) rows h = ground (arith, stays-replaced table rows h)

  prior-replace_rows :
      (rows table : List (PoolRow F))
      → Written rows
      → prior_industries day (replace_rows name day rows table).0 ≡ prior_industries day table
  unfolding prior_industries
  prior-replace_rows [] table h = refl
  prior-replace_rows (r ∷ rows) table h = ap industries_of (earlier-replaced table (r ∷ rows) h)

  replace_rows_twice :
      (rows table : List (PoolRow F))
      → Written rows
      → replace_rows name day rows (replace_rows name day rows table).0
        ≡ replace_rows name day rows table
  replace_rows_twice [] table h = refl
  replace_rows_twice (r ∷ rows) table h =
      ap (λ kept. (kept ++ (r ∷ rows), length (r ∷ rows))) (stays-replaced table (r ∷ rows) h)

  stays-replace_rows :
      (rows table : List (PoolRow F))
      → Written rows
      → keep stays (replace_rows name day rows table).0 ≡ keep stays table
  stays-replace_rows [] table h = refl
  stays-replace_rows (r ∷ rows) table h = stays-replaced table (r ∷ rows) h

  abbrev new_rows : List (Spot F) → List (PoolRow F) → List (PoolRow F)
  new_rows spots table = rows_of name day (prior_industries day table) spots

  write_pool_snapshot_twice :
      (spots : List (Spot F)) (table : List (PoolRow F))
      → let written = write_pool_snapshot spots name day table in
        (write_pool_snapshot spots name day written.0 ≡ written)
        × (keep stays written.0 ≡ keep stays table)
  unfolding write_pool_snapshot
  write_pool_snapshot_twice spots table =
      let rows = new_rows spots table in
      let h = rows_of-Written (prior_industries day table) spots in
      let written = replace_rows name day rows table in
      (
        ap (λ industries. replace_rows name day (rows_of name day industries spots) written.0)
              (prior-replace_rows rows table h)
            ∙ replace_rows_twice rows table h,
        stays-replace_rows rows table h,
      )

-- A second sync of a day with the same spots writes the same number of rows and leaves the table as
-- the first one did, the inherited industries included; and no sync touches a row of another day or
-- of another pool.
pub sync_pool_snapshot_again :
    {F : Type 0} ⦃fl : Float F⦄ (spots : List (Spot F)) (name : ℕ) (day : Date)
    (table : List (PoolRow F))
    → let written = sync_pool_snapshot spots name day table in
      (sync_pool_snapshot spots name day written.0 ≡ written)
      × (keep (λ r. not (is_replaced name day r)) written.0
          ≡ keep (λ r. not (is_replaced name day r)) table)
unfolding sync_pool_snapshot
sync_pool_snapshot_again [] name day table = (refl, refl)
sync_pool_snapshot_again (s ∷ spots) name day table =
    write_pool_snapshot_twice name day (s ∷ spots) table
