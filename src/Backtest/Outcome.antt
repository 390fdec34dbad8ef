-- ===== src/Backtest/Outcome.antt =====
-- The outcomes of the two matching loops, compared.
use stock_platform.Prelude.{◌≡◌, refl, List, [], ◌∷◌}
use stock_platform.Prelude.Result.{Holds, Result, ok, err, ◌>>=◌}
use stock_platform.Execution.{Code}
use stock_platform.Paper.{Order}
use stock_platform.Paper.Match.{Book}
use stock_platform.Backtest.Match.{Portfolio}

module _ {F : Type 0} where
  abbrev pub Agree : Book F → Portfolio F → Type 0
  Agree b p = (b.cash ≡ p.cash) × (b.holdings ≡ p.holdings)

  -- The same cash and holdings, or the same exception.
  abbrev pub SameOutcome : Result (Book F) → Result (Portfolio F) → Type 0
  SameOutcome (ok b) (ok p) = Agree b p
  SameOutcome (err e) (err f) = e ≡ f
  SameOutcome _ _ = ⊥

module _ {F : Type 0} where
  abbrev pub codes_of : List (Order F) → List Code
  codes_of [] = []
  codes_of (o ∷ os) = o.stock_code ∷ codes_of os

pub bind-SameOutcome :
    {F : Type 0} (P : Portfolio F → Type 0) (r : Result (Book F)) (s : Result (Portfolio F))
    (f : Book F → Result (Book F)) (g : Portfolio F → Result (Portfolio F))
    → SameOutcome r s
    → Holds P s
    → ((b : Book F) (p : Portfolio F) → Agree b p → P p → SameOutcome (f b) (g p))
    → SameOutcome (r >>= f) (s >>= g)
bind-SameOutcome P (ok b) (ok p) f g same holds next = next b p same holds
bind-SameOutcome P (ok b) (err e) f g same holds next = absurd same
bind-SameOutcome P (err e) (ok p) f g same holds next = absurd same
bind-SameOutcome P (err e) (err e') f g same holds next = same

-- The same computation in front of both.
pub prefix-SameOutcome :
    {F A : Type 0} (r : Result A) (f : A → Result (Book F)) (g : A → Result (Portfolio F))
    → ((a : A) → SameOutcome (f a) (g a))
    → SameOutcome (r >>= f) (r >>= g)
prefix-SameOutcome (ok a) f g h = h a
prefix-SameOutcome (err e) f g h = refl
