-- ===== src/TradeStatus/Limits/Laws.antt =====
-- When a limit board stops trading.
use stock_platform.Prelude.{
  ◌≡◌, arith, ◌↔◌, Bool, true, false, ◌&&◌, ◌||◌, if◌then◌else◌, Option, none, some,
}
use stock_platform.Float.{Float}
use stock_platform.TradeStatus.Limits.{
  limit_up_one_word, limit_down_one_word, one_word, sealed_up, sealed_down, classify_limit,
}

module _ {F : Type 0} ⦃fl : Float F⦄ where
  -- Whether the close seals the upper board on one price, and whether it seals the lower one.
  abbrev pub locked_up : Option F → Option F → Option F → Option F → F → F → Bool
  locked_up none o h l c threshold = false
  locked_up (some prev) o h l c threshold = sealed_up prev threshold c && one_word o h l c

  abbrev pub locked_down : Option F → Option F → Option F → Option F → F → F → Bool
  locked_down none o h l c threshold = false
  locked_down (some prev) o h l c threshold = sealed_down prev threshold c && one_word o h l c

  -- A bar stops the buys exactly if it is locked on the upper board, and the sells exactly if it is
  -- locked on the lower board and not on the upper; then the status says so, and no bar stops both.
  pub classify_limit_lem :
      (prev o h l : Option F) (c threshold : F)
      → let (status, buyable, sellable) = classify_limit prev o h l c threshold in
        let up = locked_up prev o h l c threshold in
        let down = locked_down prev o h l c threshold in
        (buyable ≡ (if up then false else true))
        × (sellable ≡ (if up then true else if down then false else true))
        × ((status ≡ limit_up_one_word) ↔ (buyable ≡ false))
        × ((status ≡ limit_down_one_word) ↔ (sellable ≡ false))
        × ((buyable || sellable) ≡ true)
  unfolding classify_limit
  classify_limit_lem none o h l c threshold =
      (ground arith, ground arith, ground arith, ground arith, ground arith)
  classify_limit_lem (some prev) o h l c threshold =
      (ground arith, ground arith, ground arith, ground arith, ground arith)
