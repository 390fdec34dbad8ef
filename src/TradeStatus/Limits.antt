-- ===== src/TradeStatus/Limits.antt =====
-- Limit boards: `base_threshold` and `classify_limit`. A code is a number of six digits here, so its
-- prefixes are quotients.
pub mod Laws
use stock_platform.Prelude.{
  ℕ, ◌/◌, ◌==◌, ◌&&◌, ◌||◌, Bool, true, false, if◌then◌else◌, Option, none, some,
}
use stock_platform.Float.{Float, ◌⊕◌, ◌⊖◌, ◌⊗◌, ◌<?◌, ◌≤?◌, unit, abs}
use stock_platform.Execution.{Code}

pub data LimitStatus : Type 0 where
  unlimited limit_up limit_down limit_up_one_word limit_down_one_word : LimitStatus

abbrev is_growth_board : Code → Bool
is_growth_board code =
    let p = code / 1000 in p == 300 || p == 301 || p == 302 || p == 688 || p == 689

abbrev is_beijing_board : Code → Bool
is_beijing_board code = let p = code / 10_000 in p == 43 || p == 83 || p == 87 || p == 88 || p == 92

module _ {F : Type 0} ⦃fl : Float F⦄ where
  unfoldable pub base_threshold : Code → F
  base_threshold code =
      if is_growth_board code
      then fl.literal 20 2
      else if is_beijing_board code
      then fl.literal 30 2
      else fl.literal 10 2

  -- `_EPS`
  abbrev eps : F
  eps = fl.literal 1 6

  abbrev near : F → F → Bool
  near a b = abs (a ⊖ b) <? eps

  -- Open, high, low and close are one price.
  abbrev pub one_word : Option F → Option F → Option F → F → Bool
  one_word (some o) (some h) (some l) c = near o h && near h l && near l c
  one_word _ _ _ c = false

  abbrev pub sealed_up : F → F → F → Bool
  sealed_up prev threshold c = fl.round (prev ⊗ (unit ⊕ threshold)) 2 ⊖ eps ≤? c

  abbrev pub sealed_down : F → F → F → Bool
  sealed_down prev threshold c = c ≤? fl.round (prev ⊗ (unit ⊖ threshold)) 2 ⊕ eps

  -- The limit status, and whether the stock can be bought and sold.
  unfoldable pub classify_limit :
      Option F → Option F → Option F → Option F → F → F → LimitStatus × Bool × Bool
  classify_limit none o h l c threshold = (unlimited, true, true)
  classify_limit (some prev) o h l c threshold =
      let up = sealed_up prev threshold c in
      let down = sealed_down prev threshold c in
      let flat = one_word o h l c in
      if up && flat
      then (limit_up_one_word, false, true)
      else if down && flat
      then (limit_down_one_word, true, false)
      else if up
      then (limit_up, true, true)
      else if down
      then (limit_down, true, true)
      else (unlimited, true, true)
