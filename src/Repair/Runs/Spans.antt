-- ===== src/Repair/Runs/Spans.antt =====
-- The reported segments beside the flags of the frame, in `frozen_segments` and `misaligned_segments`.
use stock_platform.Prelude.{
  ℕ, zero, suc, ◌+◌, ◌-◌, ◌≤◌, ◌<◌, ◌==◌, ◌≡◌, refl, arith, ◌&&◌, Bool, true, false, Option, none,
  some, List, [], ◌∷◌, All, length, map, inl, inr, Bool-cases, exists, ap,
}
use stock_platform.Float.{Float}
use stock_platform.Repair.Runs.{
  Quote, Run, Segment, scan, freeze_run_len, misalign_run_len, flat_flags, suspect_flags, frozen_of,
  misaligned_of, frozen_segments, misaligned_segments,
}
use stock_platform.Repair.Runs.Maximal.{IsMaximal, IsKept, Rest, flag_at, scan-IsKept}
use stock_platform.Repair.Runs.Complete.{has_run-scan}

flag_at-lt : (flags : List Bool) (k : ℕ) → flag_at flags k ≡ true → k < length flags
flag_at-lt [] k h = cc
flag_at-lt (b ∷ flags) zero h = omega arith
flag_at-lt (b ∷ flags) (suc k) h = let rest = flag_at-lt flags k h in omega (arith, rest)

All-map :
    {A B : Type 0} {P : A → Type 0} (Q : B → Type 0) (f : A → B) (xs : List A)
    → All P xs
    → ((x : A) → P x → Q (f x))
    → All Q (map f xs)
All-map Q f [] _ g = tt
All-map Q f (x ∷ xs) (p, ps) g = (g x p, All-map Q f xs ps g)

-- A segment from one position to another, with its number of bars.
abbrev pub has_segment : ℕ → ℕ → ℕ → List Segment → Bool
has_segment a b n = exists (λ (g : Segment). g.start == a && g.end == b && g.bars == n)

exists-map :
    {A B : Type 0} (p : A → Bool) (q : B → Bool) (f : A → B) (xs : List A)
    → ((x : A) → p x ≡ true → q (f x) ≡ true)
    → exists p xs ≡ true
    → exists q (map f xs) ≡ true
exists-map p q f [] h e = e
exists-map p q f (x ∷ xs) h e = elim (Bool-cases (p x)) [
  | inl t ↦ ground (arith, h x t)
  | inr o ↦ ground (arith, e, o, exists-map p q f xs h)
]

Rest-whole : (flags : List Bool) → Rest (flag_at flags) 0 flags
Rest-whole flags k = let same : 0 + k ≡ k = omega arith in ap (flag_at flags) same

-- A maximal stretch lies within the flags.
end-lt : (flags : List Bool) (s n : ℕ) → IsMaximal (flag_at flags) s n → s + n ≤ length flags
end-lt flags s n m =
    let some_flag = m.some_flag in
    let set = m.inside (s + n - 1) (omega (arith, some_flag)) (omega (arith, some_flag)) in
    let lt = flag_at-lt flags (s + n - 1) set in omega (arith, lt, some_flag)

module _ {F : Type 0} ⦃fl : Float F⦄ where
  length-flat_flags :
      (prev : Option F) (qs : List (Quote F)) → length (flat_flags prev qs) ≡ length qs
  length-flat_flags prev [] = refl
  length-flat_flags prev (q ∷ qs) = ap suc (length-flat_flags (some q.close) qs)

  length-suspect_flags :
      (median : List F → F) (prior : List F) (qs : List (Quote F))
      → length (suspect_flags median prior qs) ≡ length qs
  length-suspect_flags median prior [] = refl
  length-suspect_flags median prior (q ∷ qs) =
      ap suc (length-suspect_flags median (q.close ∷ prior) qs)

  -- The bars from `start` to `end` are flat after the first, and neither the first nor the one after
  -- `end` is.
  abbrev pub IsFrozen : List (Quote F) → Segment → Type 0
  IsFrozen quotes g =
      (freeze_run_len ≤ g.bars)
      × (g.end + 1 ≡ g.start + g.bars)
      × IsMaximal (flag_at (flat_flags none quotes)) (g.start + 1) (g.bars - 1)

  -- The bars from `start` to `end` are suspect, and those next to them are not.
  abbrev pub IsMisaligned : (List F → F) → List (Quote F) → Segment → Type 0
  IsMisaligned median quotes g =
      (misalign_run_len ≤ g.bars)
      × (g.end + 1 ≡ g.start + g.bars)
      × IsMaximal (flag_at (suspect_flags median [] quotes)) g.start g.bars

  first_not_flat : (quotes : List (Quote F)) → flag_at (flat_flags none quotes) 0 ≡ false
  first_not_flat [] = refl
  first_not_flat (q ∷ quotes) = refl

  starts_late :
      (quotes : List (Quote F)) (s n : ℕ) → IsMaximal (flag_at (flat_flags none quotes)) s n → 1 ≤ s
  starts_late quotes zero n m =
      let set = m.inside 0 (omega arith) (let h = m.some_flag in omega (arith, h)) in
      let unset = first_not_flat quotes in cc
  starts_late quotes (suc s) n m = omega arith

  frozen_of-IsFrozen :
      (quotes : List (Quote F)) (r : Run)
      → IsKept (flag_at (flat_flags none quotes)) freeze_run_len 1 r
      → IsFrozen quotes (frozen_of (length quotes) r)
  frozen_of-IsFrozen quotes r (long, (n, e, m)) =
      let late = starts_late quotes r.start n m in
      let within = end-lt (flat_flags none quotes) r.start n m in
      let size = length-flat_flags none quotes in
      let start : r.start - 1 + 1 ≡ r.start = omega (arith, late) in
      let bars : r.bars - 1 ≡ n = omega (arith, e) in
      (long, ground (arith, late, within, size, e, long), rw start (rw bars m))

  misaligned_of-IsMisaligned :
      (median : List F → F) (quotes : List (Quote F)) (r : Run)
      → IsKept (flag_at (suspect_flags median [] quotes)) misalign_run_len 0 r
      → IsMisaligned median quotes (misaligned_of (length quotes) r)
  misaligned_of-IsMisaligned median quotes r (long, (n, e, m)) =
      let within = end-lt (suspect_flags median [] quotes) r.start n m in
      let size = length-suspect_flags median [] quotes in
      let bars : r.bars ≡ n = omega (arith, e) in
      (long, ground (arith, within, size, e, long), rw bars m)

  -- The scan for frozen prices reports every maximal stretch of at least five bars whose close does not
  -- change and whose return is zero or missing, with its first and last bar and their number, and
  -- nothing else.
  pub frozen_segments-IsFrozen :
      (quotes : List (Quote F))
      → All (IsFrozen quotes) (frozen_segments quotes)
        × ((a n : ℕ)
            → freeze_run_len ≤ n + 1
            → IsMaximal (flag_at (flat_flags none quotes)) (a + 1) n
            → has_segment a (a + n) (n + 1) (frozen_segments quotes) ≡ true)
  unfolding frozen_segments
  frozen_segments-IsFrozen quotes =
      let flags = flat_flags none quotes in
      let runs = scan freeze_run_len 1 0 none 0 flags in
      (
        All-map (IsFrozen quotes) (frozen_of (length quotes)) runs
            (scan-IsKept (flag_at flags) freeze_run_len 1 0 none 0 flags (refl, inl refl)
              (Rest-whole flags))
            (frozen_of-IsFrozen quotes),
        λ a n long m.
            let within = end-lt flags (a + 1) n m in
            let size = length-flat_flags none quotes in
            exists-map (λ (r : Run). r.start == a + 1 && r.bars == n + 1)
              (λ (g : Segment). g.start == a && g.end == a + n && g.bars == n + 1)
              (frozen_of (length quotes)) runs (λ r e. ground (arith, e, within, size))
              (has_run-scan (flag_at flags) freeze_run_len 1 0 (a + 1) n none 0 flags
                (refl, inl refl) (Rest-whole flags) m long (omega arith)),
      )

  -- The scan for misaligned prices reports every maximal stretch of at least three bars that lie far
  -- from the median of the closes before them, with its first and last bar and their number, and
  -- nothing else.
  pub misaligned_segments-IsMisaligned :
      (median : List F → F) (quotes : List (Quote F))
      → All (IsMisaligned median quotes) (misaligned_segments median quotes)
        × ((a n : ℕ)
            → misalign_run_len ≤ n
            → IsMaximal (flag_at (suspect_flags median [] quotes)) a n
            → has_segment a (a + n - 1) n (misaligned_segments median quotes) ≡ true)
  unfolding misaligned_segments
  misaligned_segments-IsMisaligned median quotes =
      let flags = suspect_flags median [] quotes in
      let runs = scan misalign_run_len 0 0 none 0 flags in
      (
        All-map (IsMisaligned median quotes) (misaligned_of (length quotes)) runs
            (scan-IsKept (flag_at flags) misalign_run_len 0 0 none 0 flags (refl, inl refl)
              (Rest-whole flags))
            (misaligned_of-IsMisaligned median quotes),
        λ a n long m.
            let within = end-lt flags a n m in
            let size = length-suspect_flags median [] quotes in
            exists-map (λ (r : Run). r.start == a && r.bars == n + 0)
              (λ (g : Segment). g.start == a && g.end == a + n - 1 && g.bars == n)
              (misaligned_of (length quotes)) runs (λ r e. ground (arith, e, within, size, long))
              (has_run-scan (flag_at flags) misalign_run_len 0 0 a n none 0 flags (refl, inl refl)
                (Rest-whole flags) m (omega (arith, long)) (omega arith)),
      )
