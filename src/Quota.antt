-- ===== src/Quota.antt =====
-- The token buckets: backend/app/core/ratelimit.py. A clock is read once in a check.
pub mod Bounds
use stock_platform.Prelude.{ℕ, ◌+◌, Bool, true, false, if◌then◌else◌, Option, none, some, []}
use stock_platform.Prelude.Dict.{Dict, lookup, get_or, insert}
use stock_platform.Float.{Float, ◌⊕◌, ◌⊖◌, ◌⊗◌, ◌≤?◌, unit, min}

pub record Bucket (F : Type 0) : Type 0 where
  pub tokens : F
  pub last : F

-- `_buckets` makes a bucket, full, on the first use of its key.
pub record TokenBucketLimiter (F : Type 0) : Type 0 where
  pub capacity : F
  pub refill_per_sec : F
  pub buckets : Dict (Bucket F)

-- Everyone without an id shares the key "anon".
unfoldable pub key_of : Option ℕ → ℕ
key_of none = 0
key_of (some user_id) = user_id + 1

-- HTTP 429, or none.
pub data Response : Type 0 where
  passed too_many_requests : Response

abbrev outcome : Bool → Response
outcome true = passed
outcome false = too_many_requests

module _ {F : Type 0} ⦃fl : Float F⦄ where
  abbrev pub full : TokenBucketLimiter F → F → Bucket F
  full l now = record { tokens = l.capacity; last = now }

  abbrev pub refilled : TokenBucketLimiter F → F → Bucket F → F
  refilled l now b = min l.capacity (b.tokens ⊕ (now ⊖ b.last) ⊗ l.refill_per_sec)

  -- `_Bucket.allow`
  unfoldable pub allow : TokenBucketLimiter F → F → Bucket F → Bucket F × Bool
  allow l now b =
      let tokens = refilled l now b in
      if unit ≤? tokens
      then (record { tokens = tokens ⊖ unit; last = now }, true)
      else (record { tokens = tokens; last = now }, false)

  abbrev pub bucket_of : TokenBucketLimiter F → ℕ → F → Bucket F
  bucket_of l key now = get_or (full l now) (lookup key l.buckets)

  unfoldable pub check : TokenBucketLimiter F → ℕ → F → TokenBucketLimiter F × Bool
  unfolding allow
  check l key now =
      let (b, allowed) = allow l now (bucket_of l key now) in
      (record l { buckets = insert key b l.buckets }, allowed)

  -- The two limiters: ten messages and six analyses a minute.
  abbrev pub assistant_limiter : TokenBucketLimiter F
  assistant_limiter = record {
    capacity = fl.of_ℕ 10;
    refill_per_sec = fl.div (fl.of_ℕ 10) (fl.of_ℕ 60);
    buckets = [];
  }

  abbrev pub analysis_limiter : TokenBucketLimiter F
  analysis_limiter = record {
    capacity = fl.of_ℕ 6;
    refill_per_sec = fl.div (fl.of_ℕ 6) (fl.of_ℕ 60);
    buckets = [];
  }

  -- `check_assistant_quota` and `check_analysis_quota`, each with its limiter.
  unfoldable pub check_quota : TokenBucketLimiter F → Option ℕ → F → TokenBucketLimiter F × Response
  unfolding check key_of
  check_quota l user_id now =
      let (l1, allowed) = check l (key_of user_id) now in (l1, outcome allowed)
