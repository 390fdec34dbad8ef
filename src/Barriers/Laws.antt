-- ===== src/Barriers/Laws.antt =====
-- The first touch decides the label, and the days of a sample are in bounds.
use stock_platform.Prelude.{
  ℕ, zero, suc, ◌+◌, ◌-◌, ◌≤◌, ◌<◌, ◌≡◌, arith, Bool, true, false, Option, none, some, List, [],
  ◌∷◌, length, get_elem?, ◌⊎◌, if◌then◌else◌,
}
use stock_platform.Prelude.Result.{ok, >>=-parts}
use stock_platform.Float.{Float, ◌≤?◌}
use stock_platform.Barriers.{
  Bar, Sizing, Sample, Touch, scan, barriers, last_day, or_vertical, labelled, triple_barrier,
}

module _ {F : Type 0} ⦃fl : Float F⦄ where
  -- A day of the frame on which a bar touches no barrier.
  abbrev pub untouched : List (Bar F) → F → F → ℕ → Bool
  untouched bars up dn t = elim (get_elem? bars t) [
    | none ↦ false
    | some bar ↦ if bar.low ≤? dn then false else if up ≤? bar.high then false else true
  ]

  -- The label, on the first day that touches a barrier: the lower one wins.
  abbrev pub stops : List (Bar F) → F → ℕ → Bool
  stops bars dn t = elim (get_elem? bars t) [ none ↦ false | some bar ↦ bar.low ≤? dn ]

  scan-stops :
      (bars : List (Bar F)) (up dn : F) (count t : ℕ) {touch : Touch F}
      → scan bars up dn count t ≡ some touch
      → (t ≤ touch.day)
        × (touch.day < t + count)
        × (untouched bars up dn touch.day ≡ false)
        × (touch.label ≡ (if stops bars dn touch.day then false else true))
  unfolding scan
  scan-stops bars up dn zero t e = cc
  scan-stops bars up dn (suc count) t {touch = touch} e =
      let ih = scan-stops bars up dn count (suc t) {touch = touch} in ground (arith, ih)

  scan-untouched :
      (bars : List (Bar F)) (up dn : F) (count t : ℕ) {touch : Touch F} (day : ℕ)
      → scan bars up dn count t ≡ some touch
      → t ≤ day
      → day < touch.day
      → untouched bars up dn day ≡ true
  unfolding scan
  scan-untouched bars up dn zero t day e low high = cc
  scan-untouched bars up dn (suc count) t {touch = touch} day e low high =
      let ih = scan-untouched bars up dn count (suc t) {touch = touch} day in ground (arith, ih)

  -- Where the scan ends with a touch, its day is in the window, every earlier day of the window
  -- touches no barrier, the day itself touches one, and the label is the stop's exactly if the bar
  -- of that day reaches the lower barrier.
  pub scan_lem :
      (bars : List (Bar F)) (up dn : F) (count t : ℕ) {touch : Touch F}
      → scan bars up dn count t ≡ some touch
      → ((t ≤ touch.day)
          × (touch.day < t + count)
          × (untouched bars up dn touch.day ≡ false)
          × (touch.label ≡ (if stops bars dn touch.day then false else true)))
        × ((day : ℕ) → t ≤ day → day < touch.day → untouched bars up dn day ≡ true)
  scan_lem bars up dn count t e =
      (scan-stops bars up dn count t e, λ day. scan-untouched bars up dn count t day e)

  vertical-day :
      (bars : List (Bar F)) (entry : F) (t : ℕ) (found : Option (Touch F)) {touch : Touch F}
      → or_vertical bars entry t found ≡ ok touch
      → (found ≡ some touch) ⊎ (touch.day ≡ t)
  vertical-day bars entry t none e = ground arith
  vertical-day bars entry t (some _) e = ground arith

  touch-day :
      (bars : List (Bar F)) (up dn entry : F) (first_day last : ℕ) {touch : Touch F}
      → first_day ≤ last
      → or_vertical bars entry last (scan bars up dn (last + 1 - first_day) first_day) ≡ ok touch
      → (first_day ≤ touch.day) × (touch.day ≤ last)
  touch-day bars up dn entry first_day last {touch = touch} h e =
      let found = scan bars up dn (last + 1 - first_day) first_day in
      ground (
        arith,
        vertical-day bars entry last found e,
        scan-stops bars up dn (last + 1 - first_day) first_day {touch = touch},
      )

  labelled_days :
      (bars : List (Bar F)) (t0 : ℕ) (s : Sizing F) (entry : F) {sample : Sample F}
      → 1 ≤ s.horizon
      → t0 + 1 < length bars
      → labelled bars t0 s entry ≡ ok sample
      → (sample.t1 ≤ sample.t_end) × (sample.t_end ≤ t0 + s.horizon) × (sample.t_end < length bars)
  unfolding labelled
  labelled_days bars t0 s entry {sample = sample} h1 h2 e = grind (
    arith,
    touch-day bars (barriers s entry).0 (barriers s entry).1 entry (t0 + 1) (last_day bars s t0),
    >>=-parts,
  )

  get_elem-lt :
      (bars : List (Bar F)) (i : ℕ) {bar : Bar F} → get_elem? bars i ≡ some bar → i < length bars
  get_elem-lt [] i e = cc
  get_elem-lt (b ∷ bars) zero e = omega arith
  get_elem-lt (b ∷ bars) (suc i) {bar = bar} e = ground (arith, get_elem-lt bars i {bar = bar})

  -- A sample ends on a day of the frame, from its entry to its horizon, if the horizon is at least
  -- one day.
  pub triple_barrier_days :
      (bars : List (Bar F)) (t0 : ℕ) (s : Sizing F) {sample : Sample F}
      → 1 ≤ s.horizon
      → triple_barrier bars t0 s ≡ ok (some sample)
      → (sample.t1 ≤ sample.t_end) × (sample.t_end ≤ t0 + s.horizon) × (sample.t_end < length bars)
  unfolding triple_barrier
  triple_barrier_days bars t0 s {sample = sample} h e =
      grind (arith, get_elem-lt, labelled_days bars t0 s)
