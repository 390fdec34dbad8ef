-- ===== src/Sources/Bars.antt =====
-- The rows of the daily bars: `_tencent_prefix`, `_fetch_daily_quotes_tencent`, `_shares_to_lots` and
-- `_frame_to_rows`. A cell is what `_to_float` makes of it, `none` for one that is missing or does not
-- parse; a code is a number of six digits.
use stock_platform.Prelude.{
  ℕ, ◌+◌, ◌-◌, ◌*◌, ◌/◌, ◌==◌, ◌||◌, Bool, ltb, if◌then◌else◌, Option, none, some, List, [], ◌∷◌,
  length, get_elem?,
}
use stock_platform.Prelude.Int.{ℤ}
use stock_platform.Prelude.Result.{Result, ok, not_integral, ◌>>=◌, or_raise}
use stock_platform.Float.{Float, ◌⊖◌, ◌⊗◌, is_zero}
use stock_platform.Calendar.{Date}
use stock_platform.Execution.{Code}
use stock_platform.Kline.Rows.{Bar}

pub data Exchange : Type 0 where
  sh sz bj : Exchange

unfoldable pub tencent_prefix : Code → Exchange
tencent_prefix code =
    let head = code / 100_000 in
    if head == 6 || head == 9 || head == 5 then sh else if head == 8 then bj else sz

-- The number of bars to ask for: the days of the window, a week at least, and a buffer.
unfoldable pub requested_bars : Date → Date → ℕ → ℕ
requested_bars start end max_bars =
    let span = if ltb 7 (end - start) then end - start else 7 in
    let n = span * 7 / 5 + 50 in if ltb max_bars n then max_bars else n

-- A bar of the answer: its date and the cells after it.
pub record Item (F : Type 0) : Type 0 where
  pub date : Date
  pub cells : List (Option F)

-- A row of an akshare frame.
pub record FrameRow (F : Type 0) : Type 0 where
  pub date : Date
  pub opening : Option F
  pub close : Option F
  pub high : Option F
  pub low : Option F
  pub shares : Option F
  pub amount : Option F
  pub pct_change : Option F
  pub turnover : Option F

abbrev pub cell : {F : Type 0} → ℕ → Item F → Option F
cell k it = elim (get_elem? it.cells k) [ none ↦ none | some x ↦ x ]

module _ {F : Type 0} ⦃fl : Float F⦄ where
  abbrev pub to_int : Option F → Result (Option ℤ)
  to_int none = ok none
  to_int (some x) = do n ← or_raise (fl.int x) not_integral; ok (some n)

  -- Both closes have to be there and not zero.
  abbrev pub pct_of : Option F → Option F → Option F
  pct_of (some prev) (some close) =
      let change = fl.round (fl.div (close ⊖ prev) prev ⊗ fl.of_ℕ 100) 4 in
      if is_zero prev || is_zero close then none else some change
  pct_of _ _ = none

  abbrev amount_of : Option F → Option F
  amount_of none = none
  amount_of (some x) = some (fl.round (x ⊗ fl.of_ℕ 10_000) 2)

  -- The extra cells are read from the alternate host only.
  unfoldable pub bar_of : Code → Bool → Option F → Item F → Result (Bar F)
  bar_of symbol extended prev it = do
    volume ← to_int (cell 4 it)
    ok (record {
      stock_code = symbol;
      trade_date = it.date;
      opening = cell 0 it;
      close = cell 1 it;
      high = cell 2 it;
      low = cell 3 it;
      volume = volume;
      amount = if extended then amount_of (cell 7 it) else none;
      pct_change = pct_of prev (cell 1 it);
      turnover = if extended then cell 6 it else none;
      source = none;
    })

  -- A bar out of the window gives the close before the next one only; a short one is passed over.
  unfoldable pub parse_bars :
      Code → Date → Date → Bool → Option F → List (Item F) → Result (List (Bar F))
  parse_bars symbol start end extended prev [] = ok []
  parse_bars symbol start end extended prev (it ∷ items) =
      let short = ltb (length it.cells) 5 in
      let outside = ltb it.date start || ltb end it.date in
      let rest = parse_bars symbol start end extended (if short then prev else cell 1 it) items in
      let taken = do b ← bar_of symbol extended prev it; bars ← rest; ok (b ∷ bars)
      in if short || outside then rest else taken

  unfoldable pub shares_to_lots : Option F → Result (Option ℤ)
  shares_to_lots none = ok none
  shares_to_lots (some shares) = to_int (some (fl.div shares (fl.of_ℕ 100)))

  unfoldable pub frame_to_rows : Code → List (FrameRow F) → Result (List (Bar F))
  unfolding shares_to_lots
  frame_to_rows symbol [] = ok []
  frame_to_rows symbol (r ∷ rows) = do
    volume ← shares_to_lots r.shares
    bars ← frame_to_rows symbol rows
    ok (
        record {
          stock_code = symbol;
          trade_date = r.date;
          opening = r.opening;
          close = r.close;
          high = r.high;
          low = r.low;
          volume = volume;
          amount = r.amount;
          pct_change = r.pct_change;
          turnover = r.turnover;
          source = none;
        }
        ∷ bars)
