-- ===== src/Repair/Runs/Maximal.antt =====
-- Laws of `frozen_segments` and `misaligned_segments`.
use stock_platform.Prelude.{
  ℕ, zero, suc, ◌+◌, ◌-◌, ◌≤◌, ◌≡◌, refl, arith, Bool, true, false, leb, Option, none, some, List,
  [], ◌∷◌, All, ◌⊎◌, inl, inr, Bool-cases, subst, sym,
}
use stock_platform.Prelude.Dict.{get_or}
use stock_platform.Repair.Runs.{Run, close_run, scan}

-- Flags as a function of the position, false after the last.
abbrev pub flag_at : List Bool → ℕ → Bool
flag_at [] n = false
flag_at (b ∷ flags) zero = b
flag_at (b ∷ flags) (suc n) = flag_at flags n

-- A stretch of at least one flag that is set, with none set right before it and right after it.
pub record IsMaximal (f : ℕ → Bool) (start len : ℕ) : Type 0 where
  pub some_flag : 1 ≤ len
  pub inside : (j : ℕ) → start ≤ j → j + 1 ≤ start + len → f j ≡ true
  pub before : (start ≡ 0) ⊎ (f (start - 1) ≡ false)
  pub behind : f (start + len) ≡ false

-- What the loop knows of the flags before a position.
abbrev pub Open : (ℕ → Bool) → ℕ → Option ℕ → ℕ → Type 0
Open f i none len = (len ≡ 0) × ((i ≡ 0) ⊎ (f (i - 1) ≡ false))
Open f i (some s) len =
    (s + len ≡ i)
    × (1 ≤ len)
    × ((j : ℕ) → s ≤ j → j + 1 ≤ s + len → f j ≡ true)
    × ((s ≡ 0) ⊎ (f (s - 1) ≡ false))

pub Open-next :
    (f : ℕ → Bool) (i : ℕ) (start : Option ℕ) (len : ℕ)
    → Open f i start len
    → f i ≡ true
    → Open f (i + 1) (some (get_or i start)) (len + 1)
Open-next f i none len (e, before) t = (
  omega (arith, e),
  omega arith,
  λ j ge lt. let same : j ≡ i = omega (arith, e, ge, lt) in subst (λ k. f k ≡ true) (sym same) t,
  before,
)
Open-next f i (some s) len (e, some_flag, inside, before) t = (
  omega (arith, e),
  omega arith,
  λ j ge lt. elim (Bool-cases (leb (s + len) j)) [
    | inl k ↦ let same : j ≡ i = ground (arith, e, lt, k) in subst (λ k. f k ≡ true) (sym same) t
    | inr k ↦ inside j ge (ground (arith, k))
  ],
  before,
)

pub Open-none : (f : ℕ → Bool) (i : ℕ) → f i ≡ false → Open f (i + 1) none 0
Open-none f i e =
    let same : i + 1 - 1 ≡ i = omega arith in (refl, inr (subst (λ k. f k ≡ false) (sym same) e))

-- A kept run: `extra` above the flags that it counts.
abbrev pub IsKept : (ℕ → Bool) → ℕ → ℕ → Run → Type 0
IsKept f least extra r =
    (least ≤ r.bars) × ((len : ℕ) × (len + extra ≡ r.bars) × IsMaximal f r.start len)

close_run-IsKept :
    (f : ℕ → Bool) (least extra i : ℕ) (start : Option ℕ) (len : ℕ) (segs : List Run)
    → Open f i start len
    → f i ≡ false
    → All (IsKept f least extra) segs
    → All (IsKept f least extra) (close_run least extra start len segs)
close_run-IsKept f least extra i none len segs known e rest = rest
close_run-IsKept f least extra i (some s) len segs (same, some_flag, inside, before) e rest =
    let kept : IsMaximal f s len = record {
      some_flag = some_flag;
      inside = inside;
      before = before;
      behind = subst (λ k. f k ≡ false) (sym same) e;
    } in
    elim (Bool-cases (leb least (len + extra))) [
      | inl h ↦ rw h ((ground (arith, h), (len, refl, kept)), rest)
      | inr h ↦ rw h rest
    ]

-- The rest of the flags, from a position on.
abbrev pub Rest : (ℕ → Bool) → ℕ → List Bool → Type 0
Rest f i flags = (k : ℕ) → f (i + k) ≡ flag_at flags k

pub Rest-here : (f : ℕ → Bool) (i : ℕ) (flags : List Bool) → Rest f i flags → f i ≡ flag_at flags 0
Rest-here f i flags rest =
    let same : i + 0 ≡ i = omega arith in subst (λ k. f k ≡ flag_at flags 0) same (rest 0)

pub Rest-next :
    (f : ℕ → Bool) (i : ℕ) (b : Bool) (flags : List Bool)
    → Rest f i (b ∷ flags)
    → Rest f (i + 1) flags
Rest-next f i b flags rest k =
    let same : i + suc k ≡ i + 1 + k = omega arith in
    subst (λ m. f m ≡ flag_at flags k) same (rest (suc k))

pub scan-IsKept :
    (f : ℕ → Bool) (least extra i : ℕ) (start : Option ℕ) (len : ℕ) (flags : List Bool)
    → Open f i start len
    → Rest f i flags
    → All (IsKept f least extra) (scan least extra i start len flags)
scan-IsKept f least extra i start len [] known rest =
    close_run-IsKept f least extra i start len [] known (Rest-here f i [] rest) tt
scan-IsKept f least extra i start len (true ∷ flags) known rest =
    scan-IsKept f least extra (i + 1) (some (get_or i start)) (len + 1) flags
      (Open-next f i start len known (Rest-here f i (true ∷ flags) rest))
      (Rest-next f i true flags rest)
scan-IsKept f least extra i start len (false ∷ flags) known rest =
    let e = Rest-here f i (false ∷ flags) rest in
    close_run-IsKept f least extra i start len (scan least extra (i + 1) none 0 flags) known e (
      scan-IsKept f least extra (i + 1) none 0 flags (Open-none f i e)
        (Rest-next f i false flags rest))
