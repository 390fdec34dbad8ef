-- ===== src/Repair/Runs/Complete.antt =====
-- The scan of `frozen_segments` and `misaligned_segments` and the runs that it must not miss.
use stock_platform.Prelude.{
  ℕ, ◌+◌, ◌-◌, ◌≤◌, ◌==◌, ◌≡◌, arith, ◌&&◌, Bool, true, false, leb, Option, none, some, List, [],
  ◌∷◌, ◌⊎◌, inl, inr, Bool-cases, subst, sym, exists, ap, ◌∙◌,
}
use stock_platform.Prelude.Dict.{get_or}
use stock_platform.Repair.Runs.{Run, close_run, scan}
use stock_platform.Repair.Runs.Maximal.{
  IsMaximal, Open, Open-next, Open-none, Rest, Rest-here, Rest-next,
}

abbrev pub has_run : ℕ → ℕ → List Run → Bool
has_run s n = exists (λ (r : Run). r.start == s && r.bars == n)

has_run-close_run :
    (s n least extra : ℕ) (start : Option ℕ) (len : ℕ) (segs : List Run)
    → has_run s n segs ≡ true
    → has_run s n (close_run least extra start len segs) ≡ true
has_run-close_run s n least extra none len segs h = h
has_run-close_run s n least extra (some t) len segs h = ground (arith, h)

has_run-kept :
    (s len least extra : ℕ) (segs : List Run)
    → least ≤ len + extra
    → has_run s (len + extra) (close_run least extra (some s) len segs) ≡ true
has_run-kept s len least extra segs h = ground (arith, h)

-- The last flag of a stretch that ends before a position is set.
last_flag : (f : ℕ → Bool) (s n j : ℕ) → IsMaximal f s n → s + n ≡ j + 1 → f j ≡ true
last_flag f s n j m e =
    let some_flag = m.some_flag in m.inside j (omega (arith, e, some_flag)) (omega (arith, e))

-- The open run of the loop is the stretch that ends where the loop stands.
abbrev IsOpen : ℕ → ℕ → Option ℕ → ℕ → Type 0
IsOpen s n start len = (start ≡ some s) × (len ≡ n)

start_le :
    (f : ℕ → Bool) (s t n len : ℕ) → IsMaximal f s n → IsMaximal f t len → s + n ≡ t + len → t ≤ s
start_le f s t n len m k e = elim (Bool-cases (leb t s)) [
  | inl h ↦ ground (arith, h)
  | inr h ↦
      let some_flag = k.some_flag in
      let set = m.inside (t - 1) (ground (arith, h)) (ground (arith, h, e, some_flag)) in
      elim k.before [ inl z ↦ ground (arith, h, z) | inr o ↦ cc ]
]

start_unique :
    (f : ℕ → Bool) (s t n len : ℕ) → IsMaximal f s n → IsMaximal f t len → s + n ≡ t + len → s ≡ t
start_unique f s t n len m k e =
    let a = start_le f s t n len m k e in
    let b = start_le f t s len n k m (sym e) in omega (arith, a, b)

Open-IsOpen :
    (f : ℕ → Bool) (i s n : ℕ) (start : Option ℕ) (len : ℕ)
    → Open f i start len
    → IsMaximal f s n
    → s + n ≡ i
    → IsOpen s n start len
Open-IsOpen f i s n none len (_, inl z) m e =
    let some_flag = m.some_flag in ground (arith, e, z, some_flag)
Open-IsOpen f i s n none len (_, inr b) m e =
    let some_flag = m.some_flag in
    let t = last_flag f s n (i - 1) m (omega (arith, e, some_flag)) in cc
Open-IsOpen f i s n (some t) len (same, some_flag, inside, before) m e =
    let end : s + n ≡ t + len = e ∙ sym same in
    let open_run : IsMaximal f t len = record {
      some_flag = some_flag;
      inside = inside;
      before = before;
      behind = subst (λ k. f k ≡ false) end m.behind;
    } in
    let s_eq = start_unique f s t n len m open_run end in
    (ap some (sym s_eq), omega (arith, s_eq, same, e))

-- Nothing is left after the last flag.
ends_here : (f : ℕ → Bool) (i s n : ℕ) → IsMaximal f s n → Rest f i [] → i ≤ s + n → s + n ≡ i
ends_here f i s n m rest le = elim (Bool-cases (leb (s + n) i)) [
  | inl h ↦ ground (arith, le, h)
  | inr h ↦
      let k = s + n - 1 - i in
      let e : s + n ≡ i + k + 1 = ground (arith, le, h) in
      let t = last_flag f s n (i + k) m e in let o = rest k in cc
]

has_run_at_end :
    (f : ℕ → Bool) (least extra i s n : ℕ) (start : Option ℕ) (len : ℕ) (segs : List Run)
    → Open f i start len
    → IsMaximal f s n
    → least ≤ n + extra
    → s + n ≡ i
    → has_run s (n + extra) (close_run least extra start len segs) ≡ true
has_run_at_end f least extra i s n start len segs known m long e =
    let (a, b) = Open-IsOpen f i s n start len known m e in
    rw a (rw b (has_run-kept s n least extra segs long))

goes_on : (i n : ℕ) → i ≤ n → (n ≡ i) ⊎ (i + 1 ≤ n)
goes_on i n le = elim (Bool-cases (leb n i)) [
  | inl h ↦ inl (ground (arith, le, h))
  | inr h ↦ inr (ground (arith, le, h))
]

pub has_run-scan :
    (f : ℕ → Bool) (least extra i s n : ℕ) (start : Option ℕ) (len : ℕ) (flags : List Bool)
    → Open f i start len
    → Rest f i flags
    → IsMaximal f s n
    → least ≤ n + extra
    → i ≤ s + n
    → has_run s (n + extra) (scan least extra i start len flags) ≡ true
has_run-scan f least extra i s n start len [] known rest m long le =
    has_run_at_end f least extra i s n start len [] known m long (ends_here f i s n m rest le)
has_run-scan f least extra i s n start len (true ∷ flags) known rest m long le =
    let t = Rest-here f i (true ∷ flags) rest in
    let more : i + 1 ≤ s + n = elim (goes_on i (s + n) le) [
      | inl e ↦ let b = subst (λ k. f k ≡ false) e m.behind in cc
      | inr h ↦ h
    ] in
    has_run-scan f least extra (i + 1) s n (some (get_or i start)) (len + 1) flags
      (Open-next f i start len known t) (Rest-next f i true flags rest) m long more
has_run-scan f least extra i s n start len (false ∷ flags) known rest m long le =
    let e = Rest-here f i (false ∷ flags) rest in
    let segs = scan least extra (i + 1) none 0 flags in
    elim (goes_on i (s + n) le) [
      | inl same ↦ has_run_at_end f least extra i s n start len segs known m long same
      | inr more ↦ has_run-close_run s (n + extra) least extra start len segs (
          has_run-scan f least extra (i + 1) s n none 0 flags (Open-none f i e)
            (Rest-next f i false flags rest) m long more)
    ]
