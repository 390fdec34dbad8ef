-- ===== src/Paper/Rows.antt =====
-- The rows of the order table under a loop that writes one order back in each round.
use stock_platform.Prelude.{
  ℕ, ◌≡◌, ◌≢◌, refl, ◌==◌, Bool, true, false, Option, none, some, List, [], ◌∷◌, arith, elem,
  if◌then◌else◌, All, ◌∙◌, Bool-cases, inl, inr, ◌||◌,
}
use stock_platform.Prelude.Result.{Result, Holds, Holds-bind, Holds-map, each}
use stock_platform.Calendar.{next_weekday}
use stock_platform.Paper.Tables.{Order, pending, filled, skipped, cancelled, set_order}
use stock_platform.Paper.Match.{Market, Book}

module _ {F : Type 0} where
  -- The row of an order.
  abbrev pub row : ℕ → List (Order F) → Option (Order F)
  row j [] = none
  row j (o ∷ os) = let rest = row j os in if j == o.id then some o else rest

  abbrev pub has_row : List (Order F) → ℕ → Bool
  has_row [] j = false
  has_row (o ∷ os) j = (j == o.id) || has_row os j

  abbrev pub ids : List (Order F) → List ℕ
  ids [] = []
  ids (o ∷ os) = o.id ∷ ids os

  row-set_order_ne :
      (j : ℕ) (o : Order F) (os : List (Order F)) → j ≢ o.id → row j (set_order o os) ≡ row j os
  row-set_order_ne j o [] ne = refl
  row-set_order_ne j o (p ∷ os) ne = ground (arith, row-set_order_ne j o os ne)

  row-set_order_self :
      (o : Order F) (os : List (Order F))
      → has_row os o.id ≡ true
      → row o.id (set_order o os) ≡ some o
  row-set_order_self o [] h = cc
  row-set_order_self o (p ∷ os) h = ground (arith, row-set_order_self o os)

  has_row-set_order :
      (j : ℕ) (o : Order F) (os : List (Order F)) → has_row (set_order o os) j ≡ has_row os j
  has_row-set_order j o [] = refl
  has_row-set_order j o (p ∷ os) = ground (arith, has_row-set_order j o os)

  -- A sell that the loop has handled: filled, cancelled, or pending for the next weekday.
  abbrev pub sell_done : Market F → Option (Order F) → Bool
  sell_done m none = false
  sell_done m (some o) = elim o.status [
    | pending ↦ o.exec_date == next_weekday m.day
    | filled ↦ true
    | skipped ↦ false
    | cancelled ↦ true
  ]

  -- A buy that the loop has handled: filled or skipped, never left pending.
  abbrev pub buy_done : Option (Order F) → Bool
  buy_done none = false
  buy_done (some o) = elim o.status [
    | pending ↦ false
    | filled ↦ true
    | skipped ↦ true
    | cancelled ↦ false
  ]

  -- What one round does to the rows: it replaces the row of its own order.
  pub record Replaces (done : Option (Order F) → Bool) (o : Order F) (b b' : Book F) : Type 0 where
    pub frame : (j : ℕ) → j ≢ o.id → row j b'.orders ≡ row j b.orders
    pub rows : (j : ℕ) → has_row b'.orders j ≡ has_row b.orders j
    pub decided : has_row b.orders o.id ≡ true → done (row o.id b'.orders) ≡ true

  pub Replaces-of_set :
      (done : Option (Order F) → Bool) (o o' : Order F) (b b' : Book F)
      → o'.id ≡ o.id
      → done (some o') ≡ true
      → b'.orders ≡ set_order o' b.orders
      → Replaces done o b b'
  Replaces-of_set done o o' b b' same d e = record {
    frame = λ j ne. rw e (row-set_order_ne j o' b.orders (rw same ne));
    rows = λ j. rw e (has_row-set_order j o' b.orders);
    decided = λ h. rw (e, ← same) (rw (row-set_order_self o' b.orders (rw same h)) d);
  }

  -- What a loop over orders does to the table: it decides each order that it is given and has a
  -- row, and leaves every other row alone.
  pub record Resolves (done : Option (Order F) → Bool) (os : List (Order F)) (b b' : Book F)
      : Type 0 where
    pub resolved :
        (j : ℕ) → elem j (ids os) ≡ true → has_row b.orders j ≡ true → done (row j b'.orders) ≡ true
    pub untouched : (j : ℕ) → elem j (ids os) ≡ false → row j b'.orders ≡ row j b.orders

  Resolves-cons :
      (done : Option (Order F) → Bool) (o : Order F) (os : List (Order F)) (b b1 b2 : Book F)
      → Replaces done o b b1
      → Resolves done os b1 b2
      → Resolves done (o ∷ os) b b2
  Resolves-cons done o os b b1 b2 rep res = record {
    resolved = λ j e h. elim (Bool-cases (elem j (ids os))) [
      | inl t ↦ res.resolved j t (rep.rows j ∙ h)
      | inr t ↦
          let same : j ≡ o.id = ground arith in
          rw (res.untouched j t) (rw same (rep.decided (rw (← same) h)))
    ];
    untouched = λ j e. res.untouched j (ground arith) ∙ rep.frame j (λ same. ground arith);
  }

  abbrev pub ArePending : List (Order F) → Type 0
  ArePending = All (λ o. o.status ≡ pending)

  pub each-Resolves :
      (done : Option (Order F) → Bool) (step : Order F → Book F → Result (Book F))
      (os : List (Order F)) (b : Book F)
      → ((o : Order F) (b : Book F) → o.status ≡ pending → Holds (Replaces done o b) (step o b))
      → ArePending os
      → Holds (Resolves done os b) (each step os b)
  unfolding each
  each-Resolves done step [] b one p = record { resolved = λ j e. cc; untouched = λ j e. refl }
  each-Resolves done step (o ∷ os) b one (p, ps) = Holds-bind _ _ _ (one o b p) (λ b1 rep.
      Holds-map _ (each-Resolves done step os b1 one ps)
        (λ b2 res. Resolves-cons done o os b b1 b2 rep res))
