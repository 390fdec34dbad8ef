-- ===== src/Sources/Chain.antt =====
-- The chains of sources: `fetch_daily_quotes`, `fetch_daily_quotes_raw`, `fetch_daily_quotes_hfq` and
-- `_fetch_daily_quotes_em`. Every source answers with rows, and a failure is no rows.
pub mod Order
use stock_platform.Prelude.{
  ℕ, ◌+◌, ◌&&◌, Bool, true, false, ltb, if◌then◌else◌, Option, none, some, List, [], ◌∷◌,
}
use stock_platform.Prelude.Result.{Result, ok, err}
use stock_platform.Float.{Float}
use stock_platform.Calendar.{Date}
use stock_platform.Execution.{Code}
use stock_platform.Kline.Rows.{Bar, Source, tencent, em}
use stock_platform.Sources.Tencent.{Client, Clock, Reply, tencent_get}
use stock_platform.Sources.Bars.{Item, FrameRow, parse_bars, frame_to_rows}

-- The adjust basis.
pub data Basis : Type 0 where
  qfq hfq bfq : Basis

-- The series of an answer by its keys.
pub record Series (F : Type 0) : Type 0 where
  pub qfqday : List (Item F)
  pub hfqday : List (Item F)
  pub day : List (Item F)

abbrev or_else {ℓ} : {A : Type ℓ} → List A → List A → List A
or_else [] ys = ys
or_else (x ∷ xs) ys = x ∷ xs

-- The front-adjusted series falls back to the plain one.
abbrev pub series_of : {F : Type 0} → Basis → Series F → List (Item F)
series_of qfq s = or_else s.qfqday s.day
series_of hfq s = s.hfqday
series_of bfq s = s.day

-- One answer of a provider: by a Tencent host with the clock of its call, and of akshare, `none`
-- where the call raised.
pub record Answer (F : Type 0) : Type 0 where
  pub clock : Clock
  pub reply : Reply (Series F)

pub record Request : Type 0 where
  pub symbol : Code
  pub start : Date
  pub end : Date

pub record Answers (F : Type 0) : Type 0 where
  pub primary : Answer F
  pub classic : Answer F
  pub frame : Option (List (FrameRow F))

-- `proxy.finance.qq.com` and `web.ifzq.gtimg.cn`
abbrev pub alt_host : ℕ
alt_host = 0

abbrev pub classic_host : ℕ
classic_host = 1

abbrev pub with_source : {F : Type 0} → Source → List (Bar F) → List (Bar F)
with_source s [] = []
with_source s (b ∷ bars) = record b { source = some s } ∷ with_source s bars

abbrev pub all_pct_missing : {F : Type 0} → List (Bar F) → Bool
all_pct_missing [] = true
all_pct_missing (b ∷ bars) =
    (elim b.pct_change [ none ↦ true | some _ ↦ false ]) && all_pct_missing bars

module _ {F : Type 0} ⦃fl : Float F⦄ where
  abbrev parsed : Request → Bool → Basis → Option (Series F) → Result (List (Bar F))
  parsed q extended basis none = ok []
  parsed q extended basis (some s) =
      parse_bars q.symbol q.start q.end extended none (series_of basis s)

  unfoldable pub fetch_daily_quotes_tencent :
      Request → ℕ → Bool → Basis → Answer F → Client → Client × Result (List (Bar F))
  unfolding tencent_get
  fetch_daily_quotes_tencent q host extended basis a c =
      let (c1, got) = tencent_get host a.clock a.reply c in (c1, parsed q extended basis got)

  -- A frame without any return is a degraded answer; whatever raises leaves no rows.
  abbrev pub guarded : Result (List (Bar F)) → List (Bar F)
  guarded (err e) = []
  guarded (ok bars) = if all_pct_missing bars then [] else bars

  unfoldable pub fetch_daily_quotes_em : Request → Option (List (FrameRow F)) → List (Bar F)
  unfolding frame_to_rows
  fetch_daily_quotes_em q none = []
  fetch_daily_quotes_em q (some rows) = guarded (frame_to_rows q.symbol rows)

  -- The next source is asked where a source has no rows.
  abbrev pub next_source :
      Client × Result (List (Bar F))
      → (Client → Client × Result (List (Bar F)))
      → Client × Result (List (Bar F))
  next_source (c, err e) next = (c, err e)
  next_source (c, ok []) next = next c
  next_source (c, ok (b ∷ bars)) next = (c, ok (b ∷ bars))

  abbrev pub from_tencent :
      Request
      → Basis
      → Answers F
      → (Client → Client × Result (List (Bar F)))
      → Client
      → Client × Result (List (Bar F))
  from_tencent q basis a last c =
      next_source (fetch_daily_quotes_tencent q alt_host true basis a.primary c) (λ c1.
        next_source (fetch_daily_quotes_tencent q classic_host false basis a.classic c1) last)

  unfoldable pub fetch_daily_quotes : Request → Answers F → Client → Client × Result (List (Bar F))
  unfolding fetch_daily_quotes_em
  fetch_daily_quotes q a = from_tencent q qfq a (λ c. (c, ok (fetch_daily_quotes_em q a.frame)))

  unfoldable pub fetch_daily_quotes_hfq :
      Request → Answers F → Client → Client × Result (List (Bar F))
  unfolding fetch_daily_quotes_em
  fetch_daily_quotes_hfq q a = from_tencent q hfq a (λ c. (c, ok (fetch_daily_quotes_em q a.frame)))

  abbrev pub tag : Source → Client × Result (List (Bar F)) → Client × Result (List (Bar F))
  tag s (c, err e) = (c, err e)
  tag s (c, ok bars) = (c, ok (with_source s bars))

  -- The rows name the source that served them.
  unfoldable pub fetch_daily_quotes_raw :
      Request → Answers F → Client → Client × Result (List (Bar F))
  unfolding fetch_daily_quotes_em
  fetch_daily_quotes_raw q a c =
      next_source (tag tencent (fetch_daily_quotes_tencent q alt_host true bfq a.primary c)) (λ c1.
        next_source (tag tencent (fetch_daily_quotes_tencent q classic_host false bfq a.classic c1))
          (λ c2. (c2, ok (with_source em (fetch_daily_quotes_em q a.frame)))))
