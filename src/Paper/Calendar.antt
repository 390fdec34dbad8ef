-- ===== src/Paper/Calendar.antt =====
-- The rebalance calendar: `rebalance_dates` of backend/app/services/paper_analytics.py and
-- `_qualifies_rebalance` of backend/app/services/paper_service.py.
use stock_platform.Prelude.{
  ℕ, zero, suc, ◌+◌, ◌-◌, ◌%◌, Bool, true, false, ltb, leb, ◌==◌, ◌&&◌, if◌then◌else◌, List, [],
  ◌∷◌, keep, elem,
}
use stock_platform.Prelude.Int.{pos, negsuc}
use stock_platform.Prelude.Result.{Result, ok, err, value_error}
use stock_platform.Calendar.{Date, weekday, year_month, iso_week, first_of_month, pair_eq}
use stock_platform.Paper.Tables.{Freq, weekly, monthly, every, other_text}

-- `last_by[k] = d` for the key `k` of each date in turn. The dict keeps the place of a key's first
-- date and the value of its last.
abbrev pub Groups : Type 0
Groups = List ((ℕ × ℕ) × Date)

module _ (key : Date → ℕ × ℕ) where
  abbrev pub set_group : Date → Groups → Groups
  set_group d [] = (key d, d) ∷ []
  set_group d ((k, e) ∷ groups) =
      let rest = set_group d groups in if pair_eq (key d) k then (k, d) ∷ groups else (k, e) ∷ rest

  unfoldable pub last_by : List Date → Groups → Groups
  last_by [] groups = groups
  last_by (d ∷ dates) groups = last_by dates (set_group d groups)

-- `sorted` on the keys, by insertion; the keys of a dict are different.
abbrev pub key_lt : ℕ × ℕ → ℕ × ℕ → Bool
key_lt a b = if ltb a.0 b.0 then true else a.0 == b.0 && ltb a.1 b.1

abbrev pub insert_group : (ℕ × ℕ) × Date → Groups → Groups
insert_group g [] = g ∷ []
insert_group g (h ∷ groups) =
    let rest = insert_group g groups in if key_lt g.0 h.0 then g ∷ h ∷ groups else h ∷ rest

unfoldable pub sort_groups : Groups → Groups
sort_groups [] = []
sort_groups (g ∷ groups) = insert_group g (sort_groups groups)

abbrev pub group_dates : Groups → List Date
group_dates [] = []
group_dates ((k, d) ∷ groups) = d ∷ group_dates groups

-- `dates[::n]`: the date at hand is taken when the countdown is zero.
unfoldable pub stride : ℕ → ℕ → List Date → List Date
stride n wait [] = []
stride n zero (d ∷ dates) = d ∷ stride n (n - 1) dates
stride n (suc wait) (d ∷ dates) = stride n wait dates

unfoldable pub rebalance_dates : List Date → Freq → Result (List Date)
unfolding last_by sort_groups stride
rebalance_dates [] freq = ok []
rebalance_dates (d ∷ dates) weekly =
    ok (group_dates (sort_groups (last_by iso_week (d ∷ dates) [])))
rebalance_dates (d ∷ dates) monthly =
    ok (group_dates (sort_groups (last_by year_month (d ∷ dates) [])))
rebalance_dates (d ∷ dates) (every (pos zero)) = err value_error
rebalance_dates (d ∷ dates) (every (pos (suc n))) = ok (stride (suc n) 0 (d ∷ dates))
rebalance_dates (d ∷ dates) (every (negsuc n)) = err value_error
rebalance_dates (d ∷ dates) other_text = err value_error

-- `dates.index(d)`, for a date that is in the list
abbrev pub index : Date → List Date → ℕ
index d [] = 0
index d (e ∷ dates) = let rest = index d dates in if d == e then 0 else suc rest

-- `max(dates)`
abbrev pub latest : Date → List Date → Date
latest best [] = best
latest best (d ∷ dates) = latest (if ltb best d then d else best) dates

-- `d` is the last of the dates that share its key.
abbrev pub is_last : (Date → ℕ × ℕ) → Date → List Date → Bool
is_last key d dates = d == latest 0 (keep (λ x. pair_eq (key x) (key d)) dates)

-- The Friday of the date's week: `d + timedelta(days=4 - d.weekday())`.
abbrev pub friday_of : Date → Date
friday_of d = d + 4 - weekday d

-- The day before the first of the next month.
abbrev pub month_end : Date → Date
month_end d =
    let (y, m) = year_month d in
    (if m == 12 then first_of_month (y + 1) 1 else first_of_month y (m + 1)) - 1

abbrev month_rule : Date → List Date → Date → Bool
month_rule d dates today = if is_last year_month d dates then leb (month_end d) today else false

abbrev by_freq : Date → List Date → Freq → Date → Bool
by_freq d dates weekly today = if is_last iso_week d dates then leb (friday_of d) today else false
by_freq d dates (every (pos zero)) today = true
by_freq d dates (every (pos (suc n))) today = index d dates % suc n == 0
by_freq d dates (every (negsuc n)) today = true
by_freq d dates monthly today = month_rule d dates today
by_freq d dates other_text today = month_rule d dates today

unfoldable pub qualifies_rebalance : Date → List Date → Freq → Date → Bool
qualifies_rebalance d dates freq today = if elem d dates then by_freq d dates freq today else false
