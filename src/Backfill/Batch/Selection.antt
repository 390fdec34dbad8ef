-- ===== src/Backfill/Batch/Selection.antt =====
-- Laws of `next_pending`.
use stock_platform.Prelude.{
  ℕ, zero, suc, ◌+◌, ◌≤◌, ◌<◌, ◌≡◌, refl, arith, Bool, true, some, List, [], ◌∷◌, first, keep,
  count, length, All, Bool-cases, inl, inr,
}
use stock_platform.Backfill.State.{Row}
use stock_platform.Backfill.Batch.{
  before, insert_row, sort_rows, take_ids, next_pending, is_due, has_id,
}

-- Ids are different, as the primary key of the table.
abbrev pub OneId : List Row → Type 0
OneId rows = (id : ℕ) → count (has_id id) rows ≤ 1

-- A row that is due and that its id finds.
abbrev pub Found : List Row → Row → Type 0
Found rows r = (is_due r ≡ true) × (first (has_id r.id) rows ≡ some r)

insert_row-All {κ} :
    (P : Row → Type κ) (r : Row) (rows : List Row) → P r → All P rows → All P (insert_row r rows)
insert_row-All P r [] p ps = (p, ps)
insert_row-All P r (s ∷ rows) p (q, ps) = elim (Bool-cases (before s r)) [
  | inl e ↦ rw e (q, insert_row-All P r rows p ps)
  | inr e ↦ rw e (p, (q, ps))
]

sort_rows-All {κ} : (P : Row → Type κ) (rows : List Row) → All P rows → All P (sort_rows rows)
unfolding sort_rows
sort_rows-All P [] ps = ps
sort_rows-All P (r ∷ rows) (p, ps) = insert_row-All P r (sort_rows rows) p (sort_rows-All P rows ps)

pub count-first-some {ℓ} :
    {A : Type ℓ} (p : A → Bool) (xs : List A) {x : A}
    → first p xs ≡ some x
    → (p x ≡ true) × (1 ≤ count p xs)
count-first-some p [] e = cc
count-first-some p (y ∷ xs) {x = x} e = ground (arith, count-first-some p xs {x = x})

Found-cons :
    (x : Row) (rows due : List Row)
    → OneId (x ∷ rows)
    → All (Found rows) due
    → All (Found (x ∷ rows)) due
Found-cons x rows [] one ps = tt
Found-cons x rows (r ∷ due) one ((d, f), ps) = (
  (d, ground (arith, one r.id, count-first-some (has_id r.id) rows f)),
  Found-cons x rows due one ps,
)

OneId-tail : (x : Row) (rows : List Row) → OneId (x ∷ rows) → OneId rows
OneId-tail x rows one id = ground (arith, one id)

keep-Found : (rows : List Row) → OneId rows → All (Found rows) (keep is_due rows)
keep-Found [] one = tt
keep-Found (x ∷ rows) one =
    let rest = Found-cons x rows (keep is_due rows) one (keep-Found rows (OneId-tail x rows one)) in
    elim (Bool-cases (is_due x)) [ inl e ↦ rw e ((e, ground arith), rest) | inr e ↦ rw e rest ]

-- The first id of the selection, if a row is due and the limit is not zero, is that of such a row.
pub data Selected (rows : List Row) : List ℕ → Type 0 where
  chosen : (r : Row) (ids : List ℕ) → Found rows r → Selected rows (r.id ∷ ids)

length-insert_row : (r : Row) (rows : List Row) → length (insert_row r rows) ≡ length rows + 1
length-insert_row r [] = omega arith
length-insert_row r (s ∷ rows) = ground (arith, length-insert_row r rows)

length-sort_rows : (rows : List Row) → length (sort_rows rows) ≡ length rows
unfolding sort_rows
length-sort_rows [] = refl
length-sort_rows (r ∷ rows) =
    omega (arith, length-insert_row r (sort_rows rows), length-sort_rows rows)

length-keep : (rows : List Row) → length (keep is_due rows) ≡ count is_due rows
length-keep [] = refl
length-keep (r ∷ rows) = ground (arith, length-keep rows)

pick :
    (rows sorted : List Row) (limit : ℕ)
    → All (Found rows) sorted
    → 1 ≤ limit
    → 0 < length sorted
    → Selected rows (take_ids limit sorted)
pick rows [] limit ps h k = absurd (omega arith)
pick rows (r ∷ sorted) zero ps h k = absurd (omega arith)
pick rows (r ∷ sorted) (suc limit) (p, ps) h k = chosen r (take_ids limit sorted) p

pub next_pending-Selected :
    (rows : List Row) (limit : ℕ)
    → OneId rows
    → 1 ≤ limit
    → 0 < count is_due rows
    → Selected rows (next_pending limit rows)
unfolding next_pending
next_pending-Selected rows limit one h k =
    pick rows (sort_rows (keep is_due rows)) limit
      (sort_rows-All (Found rows) (keep is_due rows) (keep-Found rows one)) h
      (omega (arith, length-sort_rows (keep is_due rows), length-keep rows))
