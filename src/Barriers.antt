-- ===== src/Barriers.antt =====
-- The triple-barrier label of a signal: `triple_barrier` of backend/app/ml/barriers.py.
pub mod Laws
use stock_platform.Prelude.{
  ℕ, zero, suc, ◌+◌, ◌-◌, Bool, true, false, leb, ltb, if◌then◌else◌, Option, none, some, List,
  length, get_elem?,
}
use stock_platform.Prelude.Int.{ℤ, sub_ℕ}
use stock_platform.Prelude.Result.{Result, ok, err, key_error, ◌>>=◌}
use stock_platform.Float.{Float, ◌⊕◌, ◌⊖◌, ◌⊗◌, ◌<?◌, ◌≤?◌, nought, unit, divide}

-- A row of the frame.
pub record Bar (F : Type 0) : Type 0 where
  pub opening : F
  pub high : F
  pub low : F
  pub close : F

-- The keyword arguments.
pub record Sizing (F : Type 0) : Type 0 where
  pub pt : F
  pub sl : F
  pub horizon : ℕ
  pub max_entry_gap : F
  pub atr_pct : Option F
  pub up_mult : F
  pub dn_mult : F

-- What `triple_barrier` returns.
pub record Sample (F : Type 0) : Type 0 where
  pub t0 : ℕ
  pub t1 : ℕ
  pub t_end : ℕ
  pub label : Bool
  pub entry : F
  pub exit : F
  pub ret : F
  pub hold : ℤ

-- A barrier that was touched: the label, the exit price and the day.
pub record Touch (F : Type 0) : Type 0 where
  pub label : Bool
  pub exit : F
  pub day : ℕ

module _ {F : Type 0} ⦃fl : Float F⦄ where
  abbrev pub default_sizing : Sizing F
  default_sizing = record {
    pt = fl.literal 4 2;
    sl = fl.literal 2 2;
    horizon = 10;
    max_entry_gap = fl.literal 95 3;
    atr_pct = none;
    up_mult = fl.literal 2 0;
    dn_mult = fl.literal 1 0;
  }

  -- `COST`
  abbrev pub round_trip_cost : F
  round_trip_cost = fl.literal 15 4

  -- The upper and the lower barrier, by the volatility where it is known and positive.
  unfoldable pub barriers : Sizing F → F → F × F
  barriers s entry =
      let fixed : F × F = (entry ⊗ (unit ⊕ s.pt), entry ⊗ (unit ⊖ s.sl)) in
      elim s.atr_pct [
        | none ↦ fixed
        | some atr ↦
            let scaled : F × F =
              (entry ⊗ (unit ⊕ s.up_mult ⊗ atr), entry ⊗ (unit ⊖ s.dn_mult ⊗ atr)) in
            if nought <? atr then scaled else fixed
      ]

  -- The loop over `count` days from day `t`: the lower barrier is tested first.
  unfoldable pub scan : List (Bar F) → F → F → ℕ → ℕ → Option (Touch F)
  scan bars up dn zero t = none
  scan bars up dn (suc count) t =
      let later = scan bars up dn count (suc t) in
      elim (get_elem? bars t) [
        | none ↦ none
        | some bar ↦
            if bar.low ≤? dn
            then some (record { label = false; exit = dn; day = t })
            else if up ≤? bar.high
            then some (record { label = true; exit = up; day = t })
            else later
      ]

  -- `min(t0 + horizon, len(df) - 1)`
  abbrev pub last_day : List (Bar F) → Sizing F → ℕ → ℕ
  last_day bars s t0 =
      let last = length bars - 1 in if ltb last (t0 + s.horizon) then last else t0 + s.horizon

  -- The vertical barrier: the sign of the return at the close of the last day.
  abbrev pub or_vertical : List (Bar F) → F → ℕ → Option (Touch F) → Result (Touch F)
  or_vertical bars entry t (some touch) = ok touch
  or_vertical bars entry t none = elim (get_elem? bars t) [
    | none ↦ err key_error
    | some bar ↦ ok (record { label = entry <? bar.close; exit = bar.close; day = t })
  ]

  -- The sample past the guards.
  unfoldable pub labelled : List (Bar F) → ℕ → Sizing F → F → Result (Sample F)
  labelled bars t0 s entry = do
    let t_end = last_day bars s t0
    let (up, dn) = barriers s entry
    touch ← or_vertical bars entry t_end (scan bars up dn (t_end + 1 - (t0 + 1)) (t0 + 1))
    ratio ← divide touch.exit entry
    ok (record {
      t0 = t0;
      t1 = t0 + 1;
      t_end = touch.day;
      label = touch.label;
      entry = entry;
      exit = touch.exit;
      ret = ratio ⊖ unit ⊖ round_trip_cost;
      hold = sub_ℕ touch.day (t0 + 1);
    })

  -- The gap of the open over the signal day's close.
  abbrev pub gap_check : List (Bar F) → ℕ → Sizing F → F → F → Result (Option (Sample F))
  gap_check bars t0 s entry ref_close = do
    ratio ← divide entry ref_close
    let usable = do sample ← labelled bars t0 s entry; ok (some sample)
    if s.max_entry_gap <? ratio ⊖ unit then ok none else usable

  unfoldable pub triple_barrier : List (Bar F) → ℕ → Sizing F → Result (Option (Sample F))
  triple_barrier bars t0 s = elim (get_elem? bars (t0 + 1)) [
    | none ↦ ok none
    | some next ↦ elim (get_elem? bars t0) [
      | none ↦ err key_error
      | some now ↦
          if next.opening ≤? nought
          then ok none
          else if now.close ≤? nought
          then ok none
          else gap_check bars t0 s next.opening now.close
    ]
  ]
