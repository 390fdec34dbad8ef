-- ===== src/Tests/Diff.antt =====
-- The membership diff at a holding that leaves the targets and a code that enters.
use stock_platform.Prelude.{◌≡◌, refl, List, [], ◌∷◌, keep, ℕ}
use stock_platform.Prelude.Int.{pos}
use stock_platform.Prelude.Dict.{Dict, lookup, get_or}
use stock_platform.Prelude.Result.{ok, ok_of_is_ok}
use stock_platform.Float.{Fixed, fixed, fixed_float, divide}
use stock_platform.Paper.Analytics.{OrderIntent, diff_orders, buy_shares, total_assets}
use stock_platform.Paper.Analytics.Cases.{is_for}
use stock_platform.Paper.Analytics.Table.{InTable, diff_orders_at}

abbrev current : Dict ℕ
current = (600000, 100) ∷ []

abbrev target : Dict Fixed
target = (600036, pos 5000) ∷ []

abbrev last_price : Dict Fixed
last_price = (600000, fixed 10) ∷ (600036, fixed 5) ∷ []

diff :
    (xs : List (OrderIntent Fixed)) × (diff_orders current target last_price
        (fixed 9000)
        (pos 2000)
        (pos 200)
      ≡ ok xs)
unfolding diff_orders buy_shares divide
diff = ok_of_is_ok _ refl

diff_orders_at_example :
    InTable
      (total_assets current last_price (fixed 9000))
      (pos 2000)
      (pos 200)
      600000
      (lookup 600000 last_price)
      (get_or 0 (lookup 600000 current))
      (lookup 600000 target)
      (keep (is_for 600000) diff.0)
diff_orders_at_example =
    diff_orders_at current target last_price (fixed 9000) (pos 2000) (pos 200) {xs = diff.0} diff.1
      600000 refl
