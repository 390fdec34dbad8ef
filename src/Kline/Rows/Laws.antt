-- ===== src/Kline/Rows/Laws.antt =====
-- Laws of `upsert_daily_rows` and `upsert_kline_rows` (backend/app/data/sync_daily.py, sync_kline.py).
use stock_platform.Prelude.{
  ◌≡◌, refl, arith, if◌then◌else◌, Option, some, List, [], ◌∷◌, first, keep, ◌∙◌, ap, map,
}
use stock_platform.Prelude.Rows.{first-write}
use stock_platform.Float.{Float}
use stock_platform.Calendar.{Date}
use stock_platform.Execution.{Code}
use stock_platform.Kline.Rows.{
  Bar, Source, is_bar, same_bar, is_valid, write_row, write_rows, kline_row, upsert_kline_rows,
}

module _ {F : Type 0} ⦃fl : Float F⦄ (c : Code) (d : Date) where
  -- The last row of a key, and where there is none, the row that the table has.
  abbrev pub last_or : Option (Bar F) → List (Bar F) → Option (Bar F)
  last_or old [] = old
  last_or old (b ∷ bars) = last_or (if is_bar c d b then some b else old) bars

  first-write_row :
      (b : Bar F) (table : List (Bar F))
      → first (is_bar c d) (write_row b table)
        ≡ (if is_bar c d b then some b else first (is_bar c d) table)
  first-write_row b table =
      first-write (is_bar c d) (same_bar b) b table (ground arith) (λ k y. ground (arith, k))
        (λ k y e. ground (arith, k, e))

  write_rows_lem :
      (row : Bar F → Bar F) (bars table : List (Bar F))
      → first (is_bar c d) (write_rows row bars table)
        ≡ last_or (first (is_bar c d) table) (map row bars)
  write_rows_lem row [] table = refl
  write_rows_lem row (b ∷ bars) table =
      write_rows_lem row bars (write_row (row b) table)
      ∙ ap (λ old. last_or old (map row bars)) (first-write_row (row b) table)

-- What is written is read back: after an upsert a code and a day have the last valid bar of the rows
-- for them, with its columns rounded and its source; and where the rows have no valid bar for them,
-- the row that was there before, if any.
pub upsert_kline_rows-first :
    {F : Type 0} ⦃fl : Float F⦄ (c : Code) (d : Date) (source : Option Source)
    (bars table : List (Bar F))
    → first (is_bar c d) (upsert_kline_rows source bars table).0
      ≡ last_or c d (first (is_bar c d) table) (map (kline_row source) (keep is_valid bars))
unfolding upsert_kline_rows
upsert_kline_rows-first c d source bars table =
    write_rows_lem c d (kline_row source) (keep is_valid bars) table
