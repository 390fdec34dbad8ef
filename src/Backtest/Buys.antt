-- ===== src/Backtest/Buys.antt =====
-- The buy loops of the paper engine and of the backtest agree.
use stock_platform.Prelude.{
  ℕ, ◌≡◌, ◌≢◌, true, false, not, Option, none, some, List, [], ◌∷◌, arith, keep, elem, Bool-cases,
  inl, inr, ◌∙◌,
}
use stock_platform.Prelude.Dict.{Dict, lookup, contains, contains-insert}
use stock_platform.Prelude.Result.{Holds, Holds-all, Result-cases, Result, ok, ◌>>=◌}
use stock_platform.Float.{Float, ◌⊕◌, ◌⊗◌, unit}
use stock_platform.Execution.{Code, fill_price, match_fill, cost_breakdown, board_lot_shares}
use stock_platform.Paper.{Order}
use stock_platform.Paper.Match.{Market, Book, buy_order, buy_fill, buy_orders}
use stock_platform.Backtest.Match.{Portfolio, consider_buy, buy_code, buy_codes}
use stock_platform.Backtest.Outcome.{Agree, SameOutcome, codes_of, bind-SameOutcome}

module _ {F : Type 0} ⦃fl : Float F⦄ (m : Market F) (per_target : F) where
  buy_order-SameOutcome :
      (o : Order F) (b : Book F) (p : Portfolio F)
      → contains o.stock_code p.holdings ≡ false
      → Agree b p
      → SameOutcome
          (buy_order m per_target o b)
          (consider_buy m.params m.quotes per_target o.stock_code p)
  unfolding buy_order buy_fill consider_buy buy_code match_fill fill_price cost_breakdown
  buy_order-SameOutcome o b p absent same = ground arith

  -- A buy leaves alone whether any other code is held.
  abbrev pub KeepsOthers : Code → Dict ℕ → Portfolio F → Type 0
  KeepsOthers c h p = (d : Code) → d ≢ c → contains d p.holdings ≡ contains d h

  buy_code_other :
      (c d : Code) (o : Option F) (p : Portfolio F)
      → d ≢ c
      → Holds
          (λ q. contains d q.holdings ≡ contains d p.holdings)
          (buy_code m.params per_target c o p)
  unfolding buy_code fill_price
  buy_code_other c d none p ne = tt
  buy_code_other c d (some x) p ne = elim (Result-cases (lots_of x)) [
    | inl (n, e) ↦ ground (arith, contains-insert d c n p.holdings)
    | inr (e, f) ↦ ground arith
  ]
    where
      lots_of : F → Result ℕ
      lots_of y = board_lot_shares per_target (some (y ⊗ (unit ⊕ m.params.slippage_rate)))

  consider_buy_other :
      (c d : Code) (p : Portfolio F)
      → d ≢ c
      → Holds
          (λ q. contains d q.holdings ≡ contains d p.holdings)
          (consider_buy m.params m.quotes per_target c p)
  unfolding consider_buy match_fill
  consider_buy_other c d p ne = ground (arith, buy_code_other c d (lookup c m.quotes.opens) p ne)

  consider_buy-KeepsOthers :
      (c : Code) (p : Portfolio F)
      → Holds (KeepsOthers c p.holdings) (consider_buy m.params m.quotes per_target c p)
  consider_buy-KeepsOthers c p =
      Holds-all _ _ (λ d. Holds-all _ _ (λ ne. consider_buy_other c d p ne))

  consider_buy_held :
      (c : Code) (p : Portfolio F)
      → contains c p.holdings ≡ true
      → consider_buy m.params m.quotes per_target c p ≡ ok p
  unfolding consider_buy
  consider_buy_held c p h = rw h

-- The targets of a list are different codes, each held now exactly if it was held at the signal.
abbrev pub Matches : Dict ℕ → List Code → Dict ℕ → Type 0
Matches h0 [] h = Unit
Matches h0 (c ∷ cs) h = (contains c h ≡ contains c h0) × (elem c cs ≡ false) × Matches h0 cs h

Matches-KeepsOthers :
    (h0 : Dict ℕ) (c : Code) (cs : List Code) (h h' : Dict ℕ)
    → elem c cs ≡ false
    → ((d : Code) → d ≢ c → contains d h' ≡ contains d h)
    → Matches h0 cs h
    → Matches h0 cs h'
Matches-KeepsOthers h0 c [] h h' fresh keeps k = tt
Matches-KeepsOthers h0 c (d ∷ cs) h h' fresh keeps (same, other, k) =
    (ground (arith, keeps d), other, Matches-KeepsOthers h0 c cs h h' (ground arith) keeps k)

module _ {F : Type 0} ⦃fl : Float F⦄ (m : Market F) (per_target : F) (h0 : Dict ℕ) where
  abbrev pub unheld : List Code → List Code
  unheld = keep (λ c. not (contains c h0))

  unheld_skip : (c : Code) (cs : List Code) → contains c h0 ≡ true → unheld (c ∷ cs) ≡ unheld cs
  unheld_skip c cs h = rw h

  unheld_take :
      (c : Code) (cs : List Code) → contains c h0 ≡ false → unheld (c ∷ cs) ≡ c ∷ unheld cs
  unheld_take c cs h = rw h

  -- One target of the backtest's loop, given the agreement on the targets after it.
  buy_step :
      (o : Order F) (b : Book F) (p : Portfolio F) (cs : List Code) (f : Book F → Result (Book F))
      (g : Portfolio F → Result (Portfolio F))
      → contains o.stock_code p.holdings ≡ false
      → elem o.stock_code cs ≡ false
      → Matches h0 cs p.holdings
      → Agree b p
      → ((b' : Book F) (p' : Portfolio F)
          → Agree b' p'
          → Matches h0 cs p'.holdings
          → SameOutcome (f b') (g p'))
      → SameOutcome
          (buy_order m per_target o b >>= f)
          (consider_buy m.params m.quotes per_target o.stock_code p >>= g)
  buy_step o b p cs f g absent fresh k same next =
      let c = o.stock_code in
      bind-SameOutcome (KeepsOthers m per_target c p.holdings) _ _ f g
        (buy_order-SameOutcome m per_target o b p absent same)
        (consider_buy-KeepsOthers m per_target c p)
        (λ b' p' same' keeps.
          next b' p' same' (Matches-KeepsOthers h0 c cs p.holdings p'.holdings fresh keeps k))

  pub buy_codes-SameOutcome :
      (cs : List Code) (os : List (Order F)) (b : Book F) (p : Portfolio F)
      → codes_of os ≡ unheld cs
      → Matches h0 cs p.holdings
      → Agree b p
      → SameOutcome (buy_orders m per_target os b) (buy_codes m.params m.quotes per_target cs p)
  unfolding buy_orders buy_codes
  buy_codes-SameOutcome [] [] b p e k same = same
  buy_codes-SameOutcome [] (o ∷ os) b p e k same = cc
  buy_codes-SameOutcome (c ∷ cs) [] b p e k same = elim (Bool-cases (contains c h0)) [
    | inl t ↦
        rw (consider_buy_held m per_target c p (k.0 ∙ t))
          (buy_codes-SameOutcome cs [] b p (e ∙ unheld_skip c cs t) k.2 same)
    | inr t ↦ cc (e ∙ unheld_take c cs t)
  ]
  buy_codes-SameOutcome (c ∷ cs) (o ∷ os) b p e k same = elim (Bool-cases (contains c h0)) [
    | inl t ↦
        rw (consider_buy_held m per_target c p (k.0 ∙ t))
          (buy_codes-SameOutcome cs (o ∷ os) b p (e ∙ unheld_skip c cs t) k.2 same)
    | inr t ↦
        let e' = e ∙ unheld_take c cs t in
        let same_code : o.stock_code ≡ c = cc e' in
        let same_rest : codes_of os ≡ unheld cs = cc e' in
        rw (← same_code) (
          buy_step o b p cs _ _ (rw same_code (k.0 ∙ t)) (rw same_code k.1) k.2 same
            (λ b' p' a k'. buy_codes-SameOutcome cs os b' p' same_rest k' a))
  ]
