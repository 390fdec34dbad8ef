-- ===== src/Factor/Cache/Prefetch.antt =====
-- Laws of `prefetch_stock_pool` and the reads after it (backend/app/factor/cache.py).
use stock_platform.Prelude.{
  ◌≤◌, ◌≡◌, refl, arith, ◌&&◌, true, leb, some, List, [], ◌∷◌, keep, elem, ◌∙◌, sym,
}
use stock_platform.Prelude.Dict.{lookup}
use stock_platform.Calendar.{Date}
use stock_platform.Execution.{Code}
use stock_platform.Factor.Cache.{
  Row, Cache, is_of, latest_le, per_code_rows, group, seed, group_and_seed, rows_for, prefetch,
}
use stock_platform.Factor.Cache.Latest.{ascends, latest-keep, latest_le-latest}
use stock_platform.Factor.Cache.Grouping.{
  count-group, count-seed, lookup-group, lookup-seed, lookup-warm,
}

module _ {V : Type 0} where
  keep-keep :
      (c : Code) (codes : List Code) (end : Date) (table : List (Row V))
      → elem c codes ≡ true
      → keep (is_of c) (keep (λ (r : Row V). elem r.stock_code codes && leb r.date end) table)
        ≡ keep (λ (r : Row V). leb r.date end) (rows_for table c)
  keep-keep c codes end [] m = refl
  keep-keep c codes end (r ∷ table) m = ground (arith, m, keep-keep c codes end table m)

  lookup-prefetch :
      (table : List (Row V)) (codes : List Code) (end : Date) (cache : Cache V) (c : Code)
      → elem c codes ≡ true
      → lookup c (prefetch table codes end cache)
        ≡ some (keep (λ (r : Row V). leb r.date end) (rows_for table c))
  unfolding prefetch group_and_seed
  lookup-prefetch table [] end cache c m = ground (arith, m)
  lookup-prefetch table (k ∷ codes) end cache c m =
      let found = keep (λ (r : Row V). elem r.stock_code (k ∷ codes) && leb r.date end) table in
      let grouped = group found [] in
      lookup-warm c (seed (k ∷ codes) grouped) cache
        (count-seed c (k ∷ codes) grouped (count-group c found [] (omega arith)))
        (ground (
          arith,
          m,
          lookup-seed c (k ∷ codes) grouped,
          lookup-group c found [],
          keep-keep c (k ∷ codes) end table m,
        ))

  -- After a prefetch up to a day, whatever the cache held before, the cached rows of each code asked
  -- for give the same latest row as the direct query does, for every day up to that one, and the read
  -- leaves the cache as it is. The rows of the code ascend by date.
  pub prefetch-latest_le :
      (table : List (Row V)) (codes : List Code) (end : Date) (cache : Cache V) (c : Code)
      (d : Date)
      → ascends (rows_for table c) ≡ true
      → elem c codes ≡ true
      → d ≤ end
      → let warmed = prefetch table codes end cache in
        let (rows, cache') = per_code_rows (rows_for table) c warmed in
        (latest_le rows d ≡ latest_le (rows_for table c) d) × (cache' ≡ warmed)
  unfolding per_code_rows
  prefetch-latest_le table codes end cache c d up m le =
      let early = keep (λ (r : Row V). leb r.date end) (rows_for table c) in
      let warmed = prefetch table codes end cache in
      let same =
        latest_le-latest early d
        ∙ latest-keep (rows_for table c) d end up le
        ∙ sym (latest_le-latest (rows_for table c) d) in
      ground (arith, lookup-prefetch table codes end cache c m, same)
