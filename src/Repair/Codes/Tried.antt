-- ===== src/Repair/Codes/Tried.antt =====
-- The codes that a report of a repair names, for `repair_codes` and `repair_findings`.
use stock_platform.Prelude.{
  ℕ, ◌≤◌, ◌≡◌, refl, arith, ◌||◌, Bool, true, List, [], ◌∷◌, ◌++◌, length, elem, All, ◌⊎◌,
  Bool-cases,
}
use stock_platform.Prelude.Dict.{contains, insert, insert_all, Dict, contains-insert}
use stock_platform.Execution.{Code}
use stock_platform.Repair.Codes.{Report, repair_circuit_breaker}

-- The code was tried: it is repaired or failed.
abbrev pub tried : Code → Report → Bool
tried code report = contains code report.repaired || elem code report.failed

elem-append : (k : ℕ) (xs ys : List ℕ) → elem k (xs ++ ys) ≡ (elem k xs || elem k ys)
elem-append k [] ys = refl
elem-append k (x ∷ xs) ys = ground (arith, elem-append k xs ys)

-- The codes of the list were all tried.
abbrev pub Tried : List Code → Report → Type 0
Tried codes report = All (λ code. tried code report ≡ true) codes

-- They were, unless thirty codes failed at least.
abbrev pub Ends : List Code → Report → Type 0
Ends codes report = (repair_circuit_breaker ≤ length report.failed) ⊎ Tried codes report

pub tried-missed :
    (code c : Code) (report : Report)
    → tried code report ≡ true
    → tried code (record report { failed = report.failed ++ (c ∷ []) }) ≡ true
tried-missed code c report h = ground (arith, h, elem-append code report.failed (c ∷ []))

pub tried-new_failure :
    (c : Code) (report : Report)
    → tried c (record report { failed = report.failed ++ (c ∷ []) }) ≡ true
tried-new_failure c report = ground (
  arith,
  Bool-cases (contains c report.repaired),
  Bool-cases (elem c report.failed),
  elem-append c report.failed (c ∷ []),
)

pub tried-repaired :
    (code c n : ℕ) (report : Report)
    → tried code report ≡ true
    → tried code (record report { repaired = insert c n report.repaired }) ≡ true
tried-repaired code c n report h = ground (arith, h, contains-insert code c n report.repaired)

pub tried-new_repair :
    (c n : ℕ) (report : Report)
    → tried c (record report { repaired = insert c n report.repaired }) ≡ true
tried-new_repair c n report = ground (arith, contains-insert c c n report.repaired)

contains-insert_all :
    {V : Type 0} (j : ℕ) (rows d : Dict V)
    → contains j (insert_all rows d) ≡ (contains j rows || contains j d)
contains-insert_all j [] d = refl
contains-insert_all j ((k, v) ∷ rows) d = ground (
  arith,
  contains-insert_all j rows (insert k v d),
  contains-insert j k v d,
  Bool-cases (contains j rows),
)

-- The report of one code added to those before.
abbrev pub merged : Report → Report → Report
merged report res = record {
  repaired = insert_all res.repaired report.repaired;
  failed = report.failed ++ res.failed;
}

pub tried-merged_old :
    (code : Code) (report res : Report)
    → tried code report ≡ true
    → tried code (merged report res) ≡ true
tried-merged_old code report res h = ground (
  arith,
  h,
  contains-insert_all code res.repaired report.repaired,
  elem-append code report.failed res.failed,
  Bool-cases (contains code res.repaired),
)

pub tried-merged_new :
    (code : Code) (report res : Report)
    → tried code res ≡ true
    → tried code (merged report res) ≡ true
tried-merged_new code report res h = ground (
  arith,
  h,
  contains-insert_all code res.repaired report.repaired,
  elem-append code report.failed res.failed,
  Bool-cases (contains code res.repaired),
  Bool-cases (contains code report.repaired),
  Bool-cases (elem code report.failed),
)
