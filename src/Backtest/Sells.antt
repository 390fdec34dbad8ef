-- ===== src/Backtest/Sells.antt =====
-- The sell loops of the paper engine and of the backtest agree.
use stock_platform.Prelude.{
  ℕ, suc, ◌<◌, ◌≡◌, true, false, not, some, List, [], ◌∷◌, arith, keep, elem, Bool-cases, ◌⊎◌, inl,
  inr, ◌∙◌,
}
use stock_platform.Prelude.Dict.{Dict, lookup, erase, contains, lookup-erase_ne, contains-erase_ne}
use stock_platform.Prelude.Result.{Holds, Holds-map, Holds-bind, Result, ok, ◌>>=◌}
use stock_platform.Float.{Float}
use stock_platform.Execution.{Code, fill_price, match_fill, cost_breakdown}
use stock_platform.Paper.{Order}
use stock_platform.Paper.Match.{Market, Book, sell_order, sell_fill, sell_orders}
use stock_platform.Backtest.Match.{Portfolio, consider_sell, sell_code, sell_codes}
use stock_platform.Backtest.Outcome.{Agree, SameOutcome, codes_of, bind-SameOutcome}

-- Each code is held with some shares, and stands once in the list.
abbrev pub Ready : List Code → Dict ℕ → Type 0
Ready [] h = Unit
Ready (c ∷ cs) h = ((n : ℕ) × (lookup c h ≡ some (suc n))) × (elem c cs ≡ false) × Ready cs h

-- Positive holdings of different codes.
abbrev pub IsHoldings : Dict ℕ → Type 0
IsHoldings [] = Unit
IsHoldings ((c, n) ∷ h) = (0 < n) × (contains c h ≡ false) × IsHoldings h

Ready-erase :
    (c : Code) (cs : List Code) (h : Dict ℕ) → elem c cs ≡ false → Ready cs h → Ready cs (erase c h)
Ready-erase c [] h e r = tt
Ready-erase c (d ∷ cs) h e ((n, held), fresh, r) =
    ((n, ground (arith, lookup-erase_ne d c h)), fresh, Ready-erase c cs h (ground arith) r)

module _ {F : Type 0} ⦃fl : Float F⦄ (m : Market F) (targets : List Code) where
  sell_order-SameOutcome :
      (o : Order F) (b : Book F) (p : Portfolio F) (n : ℕ)
      → elem o.stock_code targets ≡ false
      → lookup o.stock_code p.holdings ≡ some (suc n)
      → Agree b p
      → SameOutcome (sell_order m o b) (consider_sell m.params m.quotes targets o.stock_code p)
  unfolding sell_order sell_fill consider_sell sell_code match_fill fill_price cost_breakdown
  sell_order-SameOutcome o b p n absent held same = ground arith

  -- A sell removes its own code, or nothing.
  abbrev Removes : Code → Dict ℕ → Portfolio F → Type 0
  Removes c h p = (p.holdings ≡ h) ⊎ (p.holdings ≡ erase c h)

  consider_sell-Removes :
      (c : Code) (p : Portfolio F)
      → Holds (Removes c p.holdings) (consider_sell m.params m.quotes targets c p)
  unfolding consider_sell sell_code match_fill fill_price
  consider_sell-Removes c p = ground arith

  Ready-Removes :
      (c : Code) (cs : List Code) (h : Dict ℕ) (p : Portfolio F)
      → elem c cs ≡ false
      → Ready cs h
      → Removes c h p
      → Ready cs p.holdings
  Ready-Removes c cs h p fresh r (inl e) = rw e r
  Ready-Removes c cs h p fresh r (inr e) = rw e (Ready-erase c cs h fresh r)

  abbrev pub untargeted : List Code → List Code
  untargeted = keep (λ c. not (elem c targets))

  consider_sell_target :
      (c : Code) (p : Portfolio F)
      → elem c targets ≡ true
      → consider_sell m.params m.quotes targets c p ≡ ok p
  unfolding consider_sell
  consider_sell_target c p h = rw h

  untargeted_skip :
      (c : Code) (cs : List Code) → elem c targets ≡ true → untargeted (c ∷ cs) ≡ untargeted cs
  untargeted_skip c cs h = rw h

  untargeted_take :
      (c : Code) (cs : List Code) → elem c targets ≡ false → untargeted (c ∷ cs) ≡ c ∷ untargeted cs
  untargeted_take c cs h = rw h

  -- One code of the backtest's loop, given the agreement on the codes after it.
  sell_step :
      (o : Order F) (b : Book F) (p : Portfolio F) (cs : List Code) (f : Book F → Result (Book F))
      (g : Portfolio F → Result (Portfolio F))
      → elem o.stock_code targets ≡ false
      → Ready (o.stock_code ∷ cs) p.holdings
      → Agree b p
      → ((b' : Book F) (p' : Portfolio F)
          → Agree b' p'
          → Ready cs p'.holdings
          → SameOutcome (f b') (g p'))
      → SameOutcome
          (sell_order m o b >>= f)
          (consider_sell m.params m.quotes targets o.stock_code p >>= g)
  sell_step o b p cs f g absent ((n, held), fresh, r) same next =
      let c = o.stock_code in
      bind-SameOutcome (Removes c p.holdings) _ _ f g
        (sell_order-SameOutcome o b p n absent held same) (consider_sell-Removes c p)
        (λ b' p' same' removed. next b' p' same' (Ready-Removes c cs p.holdings p' fresh r removed))

  pub sell_codes-SameOutcome :
      (cs : List Code) (os : List (Order F)) (b : Book F) (p : Portfolio F)
      → codes_of os ≡ untargeted cs
      → Ready cs p.holdings
      → Agree b p
      → SameOutcome (sell_orders m os b) (sell_codes m.params m.quotes targets cs p)
  unfolding sell_orders sell_codes
  sell_codes-SameOutcome [] [] b p e r same = same
  sell_codes-SameOutcome [] (o ∷ os) b p e r same = cc
  sell_codes-SameOutcome (c ∷ cs) [] b p e r same = elim (Bool-cases (elem c targets)) [
    | inl t ↦
        rw (consider_sell_target c p t)
          (sell_codes-SameOutcome cs [] b p (e ∙ untargeted_skip c cs t) r.2 same)
    | inr t ↦ cc (e ∙ untargeted_take c cs t)
  ]
  sell_codes-SameOutcome (c ∷ cs) (o ∷ os) b p e r same = elim (Bool-cases (elem c targets)) [
    | inl t ↦
        rw (consider_sell_target c p t)
          (sell_codes-SameOutcome cs (o ∷ os) b p (e ∙ untargeted_skip c cs t) r.2 same)
    | inr t ↦
        let e' = e ∙ untargeted_take c cs t in
        let same_code : o.stock_code ≡ c = cc e' in
        let same_rest : codes_of os ≡ untargeted cs = cc e' in
        rw (← same_code) (
          sell_step o b p cs _ _ (rw same_code t) (rw same_code r) same
            (λ b' p' a r'. sell_codes-SameOutcome cs os b' p' same_rest r' a))
  ]

  -- What the sells of the backtest leave alone: whether a target is held.
  abbrev pub KeepsTargets : Dict ℕ → Portfolio F → Type 0
  KeepsTargets h p = (c : Code) → elem c targets ≡ true → contains c p.holdings ≡ contains c h

  KeepsTargets-Removes :
      (d : Code) (h : Dict ℕ) (p q : Portfolio F)
      → elem d targets ≡ false
      → KeepsTargets h p
      → Removes d p.holdings q
      → KeepsTargets h q
  KeepsTargets-Removes d h p q absent k removed c t =
      ground (arith, k c t, contains-erase_ne c d p.holdings)

  consider_sell-KeepsTargets :
      (d : Code) (h : Dict ℕ) (p : Portfolio F)
      → KeepsTargets h p
      → Holds (KeepsTargets h) (consider_sell m.params m.quotes targets d p)
  consider_sell-KeepsTargets d h p k = elim (Bool-cases (elem d targets)) [
    | inl t ↦ rw (consider_sell_target d p t) k
    | inr t ↦
        Holds-map _ (consider_sell-Removes d p)
          (λ q removed. KeepsTargets-Removes d h p q t k removed)
  ]

  pub sell_codes-KeepsTargets :
      (cs : List Code) (h : Dict ℕ) (p : Portfolio F)
      → KeepsTargets h p
      → Holds (KeepsTargets h) (sell_codes m.params m.quotes targets cs p)
  unfolding sell_codes
  sell_codes-KeepsTargets [] h p k = k
  sell_codes-KeepsTargets (c ∷ cs) h p k =
      Holds-bind _ _ _ (consider_sell-KeepsTargets c h p k) (sell_codes-KeepsTargets cs h)
