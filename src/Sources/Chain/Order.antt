-- ===== src/Sources/Chain/Order.antt =====
-- Laws of `fetch_daily_quotes_raw`.
use stock_platform.Prelude.{
  ◌≡◌, refl, true, false, some, List, [], ◌∷◌, All, ◌⊎◌, inl, inr, subst, sym, ap, ◌∙◌,
}
use stock_platform.Prelude.Result.{Result, ok, err}
use stock_platform.Float.{Float}
use stock_platform.Kline.Rows.{Bar, Source, tencent, em}
use stock_platform.Sources.Tencent.{Client}
use stock_platform.Sources.Chain.{
  Request, Answers, bfq, alt_host, classic_host, with_source, tag, next_source,
  fetch_daily_quotes_tencent, fetch_daily_quotes_em, fetch_daily_quotes_raw,
}

module _ {F : Type 0} ⦃fl : Float F⦄ where
  abbrev pub From : Source → List (Bar F) → Type 0
  From s = All (λ (b : Bar F). b.source ≡ some s)

  next_source-cases :
      (r : Client × Result (List (Bar F))) (next : Client → Client × Result (List (Bar F)))
      (rows : List (Bar F))
      → (next_source r next).1 ≡ ok rows
      → (r.1 ≡ ok rows) ⊎ ((r.1 ≡ ok []) × ((next r.0).1 ≡ ok rows))
  next_source-cases (c, err e) next rows h = inl h
  next_source-cases (c, ok []) next rows h = inr (refl, h)
  next_source-cases (c, ok (b ∷ bars)) next rows h = inl h

  with_source-From : (s : Source) (bars : List (Bar F)) → From s (with_source s bars)
  with_source-From s [] = tt
  with_source-From s (b ∷ bars) = (refl, with_source-From s bars)

  tag-From :
      (s : Source) (r : Client × Result (List (Bar F))) (rows : List (Bar F))
      → (tag s r).1 ≡ ok rows
      → From s rows
  tag-From s (c, err e) rows h = cc
  tag-From s (c, ok bars) rows h =
      let e : with_source s bars ≡ rows = cc in subst (From s) e (with_source-From s bars)

  tag-empty : (s : Source) (r : Client × Result (List (Bar F))) → (tag s r).1 ≡ ok [] → r.1 ≡ ok []
  tag-empty s (c, err e) h = cc
  tag-empty s (c, ok []) h = refl
  tag-empty s (c, ok (b ∷ bars)) h = cc

  tag-client : (s : Source) (r : Client × Result (List (Bar F))) → (tag s r).0 ≡ r.0
  tag-client s (c, err e) = refl
  tag-client s (c, ok bars) = refl

  -- The second host, with the client as the first one left it.
  abbrev second : Request → Answers F → Client → Client × Result (List (Bar F))
  second q a c = fetch_daily_quotes_tencent q classic_host false bfq a.classic c

  -- A raw fetch that succeeds returns rows of one source, each of them marked with it: Tencent, or
  -- Eastmoney where the first host of Tencent and then the second had no row.
  pub fetch_daily_quotes_raw-From :
      (q : Request) (a : Answers F) (c : Client) (rows : List (Bar F))
      → (fetch_daily_quotes_raw q a c).1 ≡ ok rows
      → let (c1, first_rows) = fetch_daily_quotes_tencent q alt_host true bfq a.primary c in
        From tencent rows
        ⊎ (From em rows
            × (first_rows ≡ ok [])
            × ((fetch_daily_quotes_tencent q classic_host false bfq a.classic c1).1 ≡ ok []))
  unfolding fetch_daily_quotes_raw
  fetch_daily_quotes_raw-From q a c rows h =
      let one = fetch_daily_quotes_tencent q alt_host true bfq a.primary c in
      let frame : Client → Client × Result (List (Bar F)) =
        λ c2. (c2, ok (with_source em (fetch_daily_quotes_em q a.frame))) in
      let later : Client → Client × Result (List (Bar F)) =
        λ c1. next_source (tag tencent (second q a c1)) frame in
      elim (next_source-cases (tag tencent one) later rows h) [
        | inl e ↦ inl (tag-From tencent one rows e)
        | inr (e, h1) ↦
            let two = second q a (tag tencent one).0 in
            elim (next_source-cases (tag tencent two) frame rows h1) [
              | inl e1 ↦ inl (tag-From tencent two rows e1)
              | inr (e1, h2) ↦
                  let same : with_source em (fetch_daily_quotes_em q a.frame) ≡ rows = cc in
                  inr (
                    subst (From em) same (with_source-From em (fetch_daily_quotes_em q a.frame)),
                    tag-empty tencent one e,
                    ap (λ c1. (second q a c1).1) (sym (tag-client tencent one))
                        ∙ tag-empty tencent two e1,
                  )
            ]
      ]
