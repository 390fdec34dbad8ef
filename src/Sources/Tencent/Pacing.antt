-- ===== src/Sources/Tencent/Pacing.antt =====
-- Laws of `_tencent_get` over any sequence of calls.
use stock_platform.Prelude.{
  ℕ, ◌+◌, ◌≤◌, ◌≡◌, refl, arith, false, if◌then◌else◌, List, [], ◌∷◌, Bool-cases, inl, inr, All,
  subst,
}
use stock_platform.Prelude.Dict.{lookup-insert}
use stock_platform.Sources.Tencent.{
  Client, Reply, response, no_response, Clock, min_interval, waf_cooldown, cooling_until,
  is_cooling, wait_for, reset_http_session, answer, tencent_get,
}

pub record Call (A : Type 0) : Type 0 where
  pub host : ℕ
  pub clock : Clock
  pub jitter : ℕ
  pub reply : Reply A

module _ {A : Type 0} where
  abbrev pub after : Call A → Client → Client
  after k c = (tencent_get k.host k.clock k.reply c).0

  -- The calls that reach the network.
  abbrev pub sends : List (Call A) → Client → List (Call A)
  sends [] c = []
  sends (k ∷ calls) c =
      let rest = sends calls (after k c) in if is_cooling k.host k.clock c then rest else k ∷ rest

  -- A sleep is as long as asked for, at least.
  abbrev pub Sleeps : List (Call A) → Client → Type 0
  Sleeps [] c = Unit
  Sleeps (k ∷ calls) c =
      (k.clock.now + wait_for k.jitter k.clock.now c ≤ k.clock.sent) × Sleeps calls (after k c)

  abbrev pub Paced : ℕ → List (Call A) → Type 0
  Paced last [] = Unit
  Paced last (k ∷ calls) = (last + min_interval ≤ k.clock.sent) × Paced k.clock.sent calls

  last-answer :
      (host : ℕ) (t : Clock) (reply : Reply A) (c : Client)
      → (answer host t reply c).0.last_ts ≡ c.last_ts
  unfolding reset_http_session
  last-answer host t no_response c = refl
  last-answer host t (response status body) c = ground arith

  abbrev answered_client : Call A → Client → Client
  answered_client k c = (answer k.host k.clock k.reply (record c { last_ts = k.clock.sent })).0

  after-eq :
      (k : Call A) (c : Client)
      → after k c ≡ (if is_cooling k.host k.clock c then c else answered_client k c)
  unfolding tencent_get
  after-eq k c = elim (Bool-cases (is_cooling k.host k.clock c)) [
    | inl e ↦ ground (arith, e)
    | inr e ↦ ground (arith, e)
  ]

  last-after :
      (k : Call A) (c : Client)
      → (after k c).last_ts ≡ (if is_cooling k.host k.clock c then c.last_ts else k.clock.sent)
  last-after k c = ground (
    arith,
    after-eq k c,
    last-answer k.host k.clock k.reply (record c { last_ts = k.clock.sent }),
  )

  -- Whatever the hosts answer, any two requests that follow one another in the sequence are sent at
  -- least 250 milliseconds apart, across all hosts, provided that a sleep lasts as long as asked for.
  pub sends-Paced :
      (calls : List (Call A)) (c : Client) → Sleeps calls c → Paced c.last_ts (sends calls c)
  sends-Paced [] c _ = tt
  sends-Paced (k ∷ calls) c (slept, later) =
      let rest = sends-Paced calls (after k c) later in
      let last = last-after k c in
      elim (Bool-cases (is_cooling k.host k.clock c)) [
        | inl e ↦
            let same : (after k c).last_ts ≡ c.last_ts = ground (arith, last, e) in
            rw e (subst (λ ts. Paced ts (sends calls (after k c))) same rest)
        | inr e ↦
            let same : (after k c).last_ts ≡ k.clock.sent = ground (arith, last, e) in
            rw e (omega (arith, slept), subst (λ ts. Paced ts (sends calls (after k c))) same rest)
      ]

  cooling-answer :
      (host h u : ℕ) (t : Clock) (reply : Reply A) (c : Client)
      → u ≤ cooling_until h c
      → u ≤ t.answered + waf_cooldown
      → u ≤ cooling_until h (answer host t reply c).0
  unfolding reset_http_session
  cooling-answer host h u t no_response c le later = le
  cooling-answer host h u t (response status body) c le later =
      ground (arith, lookup-insert h host (t.answered + waf_cooldown) c.cooldown_until)

  cooling-after :
      (h u : ℕ) (k : Call A) (c : Client)
      → u ≤ cooling_until h c
      → u ≤ k.clock.answered + waf_cooldown
      → u ≤ cooling_until h (after k c)
  cooling-after h u k c le later = ground (
    arith,
    after-eq k c,
    le,
    later,
    cooling-answer k.host h u k.clock k.reply (record c { last_ts = k.clock.sent }) le later,
  )

  -- Requests to the host that were let through only from the time on.
  abbrev pub SparesUntil : ℕ → ℕ → List (Call A) → Type 0
  SparesUntil h u = All (λ (k : Call A). k.host ≡ h → u ≤ k.clock.check)

  abbrev pub AnsweredFrom : ℕ → List (Call A) → Type 0
  AnsweredFrom t = All (λ (k : Call A). t ≤ k.clock.answered)

  sends-SparesUntil :
      (h t : ℕ) (calls : List (Call A)) (c : Client)
      → t + waf_cooldown ≤ cooling_until h c
      → AnsweredFrom t calls
      → SparesUntil h (t + waf_cooldown) (sends calls c)
  sends-SparesUntil h t [] c le _ = tt
  sends-SparesUntil h t (k ∷ calls) c le (from, later) =
      let u = t + waf_cooldown in
      let rest =
        sends-SparesUntil h t calls (after k c) (cooling-after h u k c le (omega arith)) later in
      elim (Bool-cases (is_cooling k.host k.clock c)) [
        | inl e ↦ rw e rest
        | inr e ↦ rw e (λ same. ground (arith, e, same, le), rest)
      ]

  cooling-banned :
      (host : ℕ) (t : Clock) (reply : Reply A) (c : Client) {body : A}
      → reply ≡ response 501 body
      → cooling_until host (answer host t reply c).0 ≡ t.answered + waf_cooldown
  unfolding reset_http_session
  cooling-banned host t no_response c e = cc
  cooling-banned host t (response status body) c e =
      ground (arith, e, lookup-insert host host (t.answered + waf_cooldown) c.cooldown_until)

  -- Once a host has answered 501, no call of the following sequence reaches it before five minutes
  -- have passed, also where other hosts are asked and answer 501 between.
  pub tencent_get-SparesUntil :
      (k : Call A) (calls : List (Call A)) (c : Client) {body : A}
      → is_cooling k.host k.clock c ≡ false
      → k.reply ≡ response 501 body
      → AnsweredFrom k.clock.answered calls
      → SparesUntil k.host (k.clock.answered + waf_cooldown) (sends calls (after k c))
  tencent_get-SparesUntil k calls c {body = body} open_host banned later =
      sends-SparesUntil k.host k.clock.answered calls (after k c)
        (ground (
          arith,
          after-eq k c,
          open_host,
          cooling-banned k.host k.clock k.reply (record c { last_ts = k.clock.sent }) banned,
        ))
        later
