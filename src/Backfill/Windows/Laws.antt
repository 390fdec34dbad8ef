-- ===== src/Backfill/Windows/Laws.antt =====
-- Laws of `chunk_windows` (backend/app/data/history_backfill.py).
use stock_platform.Prelude.{
  ℕ, zero, suc, ◌+◌, ◌-◌, ◌≤◌, ◌<◌, ◌≡◌, arith, ◌&&◌, Bool, leb, if◌then◌else◌, List, [], ◌∷◌,
  count,
}
use stock_platform.Calendar.{Date}
use stock_platform.Backfill.Windows.{Window, windows_from, chunk_windows}

-- The windows follow one another from `cur` to `end`, none longer than `size` days.
abbrev pub Tiles : ℕ → Date → Date → List Window → Type 0
Tiles size cur end [] = end < cur
Tiles size cur end ((a, b) ∷ windows) =
    (a ≡ cur) × (a ≤ b) × (b < a + size) × (b ≤ end) × Tiles size (b + 1) end windows

windows_from-Tiles :
    (fuel size : ℕ) (cur end : Date)
    → 1 ≤ size
    → end + 1 ≤ cur + fuel
    → Tiles size cur end (windows_from fuel size cur end)
unfolding windows_from
windows_from-Tiles zero size cur end h k = omega arith
windows_from-Tiles (suc fuel) size cur end h k = ground (
  arith,
  windows_from-Tiles fuel size (end + 1) end,
  windows_from-Tiles fuel size (cur + size - 1 + 1) end,
)

-- Chunks of at least one day tile the span: the first starts at its start, each next one on the day
-- after the one before, none is longer than the chunk, and the last ends at the end.
pub chunk_windows-Tiles :
    (start end : Date) (size : ℕ) → 1 ≤ size → Tiles size start end (chunk_windows start end size)
unfolding chunk_windows
chunk_windows-Tiles start end size h =
    windows_from-Tiles (end + 1 - start) size start end h (omega arith)

abbrev pub covers : Date → Window → Bool
covers d w = leb w.0 d && leb d w.1

Tiles-count :
    (size : ℕ) (cur end d : Date) (windows : List Window)
    → Tiles size cur end windows
    → count (covers d) windows ≡ (if leb cur d && leb d end then 1 else 0)
Tiles-count size cur end d [] t = ground arith
Tiles-count size cur end d ((a, b) ∷ windows) t =
    ground (arith, Tiles-count size (b + 1) end d windows)

-- Every day of the span lies in one window and no other day does, for chunks of at least one day.
pub count-chunk_windows :
    (start end : Date) (size : ℕ) (d : Date)
    → 1 ≤ size
    → count (covers d) (chunk_windows start end size) ≡ (if leb start d && leb d end then 1 else 0)
count-chunk_windows start end size d h =
    Tiles-count size start end d (chunk_windows start end size)
      (chunk_windows-Tiles start end size h)
