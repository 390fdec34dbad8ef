-- ===== src/Sources/Tencent.antt =====
-- `_tencent_get` and `_reset_http_session`: the pacing of the requests and the pause of a host that
-- answered 501. The clock is read before the test, before the sleep, after it, and at the answer.
pub mod Pacing
use stock_platform.Prelude.{
  ℕ, ◌+◌, ◌-◌, ◌%◌, ◌==◌, ◌&&◌, Bool, ltb, leb, if◌then◌else◌, Option, none, some, List, [], ◌∷◌,
}
use stock_platform.Prelude.Dict.{Dict, lookup, get_or, insert}

-- The module's globals; hosts are numbers.
pub record Client : Type 0 where
  pub last_ts : ℕ
  pub cooldown_until : Dict ℕ
  pub ua_idx : ℕ

pub data Reply (A : Type 0) : Type 0 where
  response : (status : ℕ) → (body : A) → Reply A
  no_response : Reply A

pub record Clock : Type 0 where
  pub check : ℕ
  pub now : ℕ
  pub sent : ℕ
  pub answered : ℕ

abbrev pub min_interval : ℕ
min_interval = 250

abbrev pub waf_cooldown : ℕ
waf_cooldown = 300_000

abbrev pub user_agents : ℕ
user_agents = 4

abbrev pub cooling_until : ℕ → Client → ℕ
cooling_until host c = get_or 0 (lookup host c.cooldown_until)

abbrev pub is_cooling : ℕ → Clock → Client → Bool
is_cooling host t c = ltb t.check (cooling_until host c)

-- How long to sleep; the jitter is drawn between 0 and 250.
abbrev pub wait_for : ℕ → ℕ → Client → ℕ
wait_for jitter now c = c.last_ts + min_interval + jitter - now

unfoldable pub reset_http_session : Client → Client
reset_http_session c = record c { ua_idx = (c.ua_idx + 1) % user_agents }

module _ {A : Type 0} where
  -- After the answer.
  abbrev pub answer : ℕ → Clock → Reply A → Client → Client × Option A
  unfolding reset_http_session
  answer host t no_response c = (c, none)
  answer host t (response status body) c =
      let banned = record c {
        cooldown_until = insert host (t.answered + waf_cooldown) c.cooldown_until;
      } in
      if status == 501
      then (reset_http_session banned, none)
      else if leb 400 status && ltb status 600
      then (c, none)
      else (c, some body)

  unfoldable pub tencent_get : ℕ → Clock → Reply A → Client → Client × Option A
  unfolding reset_http_session
  tencent_get host t reply c =
      let sent = answer host t reply (record c { last_ts = t.sent }) in
      if is_cooling host t c then (c, none) else sent
