-- ===== src/Repair/Codes/Breaker.antt =====
-- Laws of `repair_codes` and `repair_findings`.
use stock_platform.Prelude.{
  ℕ, ◌+◌, ◌≤◌, ◌≡◌, refl, arith, Bool, true, false, leb, List, [], ◌∷◌, ◌++◌, length, inl, inr,
  Option-cases, Bool-cases, subst, sym, if◌then◌else◌, none, some, length-append,
}
use stock_platform.Prelude.Dict.{insert, keys, Dict}
use stock_platform.Calendar.{Date}
use stock_platform.Execution.{Code}
use stock_platform.Float.{Float}
use stock_platform.Repair.Codes.{
  Stores, Settings, Fetched, Report, no_report, repair_circuit_breaker, repair_one, repair_from,
  repair_codes, Span, window_of, repair_each, repair_findings,
}
use stock_platform.Repair.Codes.Tried.{
  tried, Tried, Ends, merged, tried-missed, tried-new_failure, tried-repaired, tried-new_repair,
  tried-merged_old, tried-merged_new,
}

module _ {F : Type 0} ⦃fl : Float F⦄ where
  -- No code that was tried is forgotten.
  tried-repair_from :
      (s : Settings) (fetch : Code → Fetched F) (codes : List Code) (consecutive : ℕ)
      (report : Report) (stores : Stores F) (code : Code)
      → tried code report ≡ true
      → tried code (repair_from s fetch codes consecutive report stores).1 ≡ true
  tried-repair_from s fetch [] consecutive report stores code h = h
  tried-repair_from s fetch (c ∷ codes) consecutive report stores code h =
      let done = repair_one s c (fetch c) stores in
      elim (Option-cases done.1) [
        | inl e ↦
            let missed : Report = record report { failed = report.failed ++ (c ∷ []) } in
            let kept : tried code missed ≡ true = tried-missed code c report h in
            rw (repair_from, e)
              (elim (Bool-cases (leb repair_circuit_breaker (consecutive + 1))) [
                | inl b ↦ rw b kept
                | inr b ↦
                    rw b (tried-repair_from s fetch codes (consecutive + 1) missed done.0 code kept)
              ])
        | inr (n, e) ↦
            rw (repair_from, e)
              (tried-repair_from s fetch codes 0
                (record report { repaired = insert c n report.repaired }) done.0 code
                (tried-repaired code c n report h))
      ]

  repair_from-missed :
      (s : Settings) (fetch : Code → Fetched F) (c : Code) (codes : List Code) (consecutive : ℕ)
      (report : Report) (stores : Stores F)
      → (repair_one s c (fetch c) stores).1 ≡ none
      → let done = (repair_one s c (fetch c) stores).0 in
        let missed : Report = record report { failed = report.failed ++ (c ∷ []) } in
        repair_from s fetch (c ∷ codes) consecutive report stores ≡ (
          if leb repair_circuit_breaker (consecutive + 1)
          then (done, missed)
          else repair_from s fetch codes (consecutive + 1) missed done)
  repair_from-missed s fetch c codes consecutive report stores e = rw (repair_from, e) refl

  repair_from-repaired :
      (s : Settings) (fetch : Code → Fetched F) (c : Code) (codes : List Code) (consecutive : ℕ)
      (report : Report) (stores : Stores F) {n : ℕ}
      → (repair_one s c (fetch c) stores).1 ≡ some n
      → repair_from s fetch (c ∷ codes) consecutive report stores
        ≡ repair_from s fetch codes 0
            (record report { repaired = insert c n report.repaired })
            (repair_one s c (fetch c) stores).0
  repair_from-repaired s fetch c codes consecutive report stores e = rw (repair_from, e) refl

  Ends-if :
      (codes : List Code) (b : Bool) (x y : Stores F × Report)
      → (b ≡ true → Ends codes x.1)
      → (b ≡ false → Ends codes y.1)
      → Ends codes (if b then x else y).1
  Ends-if codes true x y f g = f refl
  Ends-if codes false x y f g = g refl

  repair_from-Ends :
      (s : Settings) (fetch : Code → Fetched F) (codes : List Code) (consecutive : ℕ)
      (report : Report) (stores : Stores F)
      → consecutive ≤ length report.failed
      → Ends codes (repair_from s fetch codes consecutive report stores).1
  repair_from-Ends s fetch [] consecutive report stores le = inr tt
  repair_from-Ends s fetch (c ∷ codes) consecutive report stores le =
      let done = repair_one s c (fetch c) stores in
      elim (Option-cases done.1) [
        | inl e ↦
            let missed : Report = record report { failed = report.failed ++ (c ∷ []) } in
            let size = length-append report.failed (c ∷ []) in
            let same = repair_from-missed s fetch c codes consecutive report stores e in
            subst (λ r. Ends (c ∷ codes) r.1) (sym same)
              (Ends-if (c ∷ codes) (leb repair_circuit_breaker (consecutive + 1)) (done.0, missed)
                (repair_from s fetch codes (consecutive + 1) missed done.0)
                (λ b. inl (ground (arith, size, le, b)))
                (λ b.
                  let le1 : consecutive + 1 ≤ length missed.failed = omega (arith, size, le) in
                  let rest = repair_from-Ends s fetch codes (consecutive + 1) missed done.0 le1 in
                  let this =
                    tried-repair_from s fetch codes (consecutive + 1) missed done.0 c
                      (tried-new_failure c report) in
                  elim rest [ inl many ↦ inl many | inr all ↦ inr (this, all) ]))
        | inr (n, e) ↦
            let kept : Report = record report { repaired = insert c n report.repaired } in
            let same = repair_from-repaired s fetch c codes consecutive report stores {n = n} e in
            let rest = repair_from-Ends s fetch codes 0 kept done.0 (omega arith) in
            let this =
              tried-repair_from s fetch codes 0 kept done.0 c (tried-new_repair c n report) in
            subst (λ r. Ends (c ∷ codes) r.1) (sym same)
              (elim rest [ inl many ↦ inl many | inr all ↦ inr (this, all) ])
      ]

  -- Every code of the list is repaired or listed as failed, unless thirty of them failed at least.
  pub repair_codes-Ends :
      (s : Settings) (fetch : Code → Fetched F) (codes : List Code) (stores : Stores F)
      → Ends codes (repair_codes s fetch codes stores).1
  unfolding repair_codes
  repair_codes-Ends s fetch codes stores =
      repair_from-Ends s fetch codes 0 no_report stores (omega arith)

  -- A run on one code is not cut.
  repair_codes-one :
      (s : Settings) (fetch : Code → Fetched F) (code : Code) (stores : Stores F)
      → tried code (repair_codes s fetch (code ∷ []) stores).1 ≡ true
  unfolding repair_codes
  repair_codes-one s fetch code stores =
      elim (Option-cases (repair_one s code (fetch code) stores).1) [
        | inl e ↦ rw (repair_from, e) (ground arith)
        | inr (n, e) ↦ rw (repair_from, e) (ground arith)
      ]

  tried-repair_each :
      (s : Settings) (fetch : Code → Date × Date → Fetched F) (findings : Dict (List Span))
      (report : Report) (stores : Stores F) (code : Code)
      → tried code report ≡ true
      → tried code (repair_each s fetch findings report stores).1 ≡ true
  tried-repair_each s fetch [] report stores code h = h
  tried-repair_each s fetch ((c, segs) ∷ findings) report stores code h =
      let done = repair_codes s (λ k. fetch k (window_of segs)) (c ∷ []) stores in
      tried-repair_each s fetch findings (merged report done.1) done.0 code
        (tried-merged_old code report done.1 h)

  repair_each-Tried :
      (s : Settings) (fetch : Code → Date × Date → Fetched F) (findings : Dict (List Span))
      (report : Report) (stores : Stores F)
      → Tried (keys findings) (repair_each s fetch findings report stores).1
  repair_each-Tried s fetch [] report stores = tt
  repair_each-Tried s fetch ((c, segs) ∷ findings) report stores =
      let done = repair_codes s (λ k. fetch k (window_of segs)) (c ∷ []) stores in
      (
        tried-repair_each s fetch findings (merged report done.1) done.0 c (
            tried-merged_new c report done.1
              (repair_codes-one s (λ k. fetch k (window_of segs)) c stores)),
        repair_each-Tried s fetch findings (merged report done.1) done.0,
      )

  -- The repair of findings tries every code of them, however many fetches fail in a row: it calls
  -- `repair_codes` once for each code, so the count of failures starts again with each of them and
  -- the circuit breaker never opens.
  pub repair_findings-Tried :
      (s : Settings) (fetch : Code → Date × Date → Fetched F) (findings : Dict (List Span))
      (stores : Stores F)
      → Tried (keys findings) (repair_findings s fetch findings stores).1
  unfolding repair_findings
  repair_findings-Tried s fetch findings stores =
      repair_each-Tried s fetch findings no_report stores
