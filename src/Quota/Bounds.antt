-- ===== src/Quota/Bounds.antt =====
-- Laws of `TokenBucketLimiter.check` over any sequence of calls.
use stock_platform.Prelude.{
  ℕ, sym, subst, ==_iff, zero, suc, ◌+◌, ◌<◌, ◌≤◌, ◌==◌, ◌≡◌, arith, ◌&&◌, true, false,
  if◌then◌else◌, List, [], ◌∷◌, Bool-cases, inl, inr,
}
use Prim.Native.Nat.{◌^◌}
use stock_platform.Prelude.Dict.{insert, lookup-insert}
use stock_platform.Float.{Float, ◌⊕◌, ◌⊖◌, ◌⊗◌, ◌<?◌, ◌≤?◌, unit, min}
use stock_platform.Quota.{Bucket, TokenBucketLimiter, refilled, allow, bucket_of, check}

module _ {F : Type 0} ⦃fl : Float F⦄ where
  abbrev pub AtMost : ℕ → F → Type 0
  AtMost k x = (x ≤? fl.of_ℕ k) ≡ true

-- Facts of IEEE 754. What is below a number that is at most k is at most k too; of two numbers, neither
-- a NaN, the one that the other is not below is at most what that one is; what is at most k + 1 is,
-- less one, at most k, as long as these are integers that the floats have; what is at most zero is not
-- one or more; and the refill of no time adds nothing, for a finite clock and rate.
pub record IsExact (F : Type 0) ⦃fl : Float F⦄ : Type 0 where
  pub lt_at_most : (k : ℕ) (a b : F) → (b <? a) ≡ true → AtMost k a → AtMost k b
  pub not_lt_at_most : (n k : ℕ) (a b : F) → (b <? a) ≡ false → AtMost n a → AtMost k b → AtMost k a
  pub sub_unit : (k : ℕ) (x : F) → k < 2 ^ 53 → AtMost (suc k) x → AtMost k (x ⊖ unit)
  pub below_unit : (x : F) → AtMost 0 x → (unit ≤? x) ≡ false
  pub add_nothing :
      (k : ℕ) (x now rate : F)
      → fl.is_finite now ≡ true
      → fl.is_finite rate ≡ true
      → AtMost k x
      → AtMost k (x ⊕ (now ⊖ now) ⊗ rate)

module _ {F : Type 0} ⦃fl : Float F⦄ where
  -- How many of the calls of `check` with these keys, all at one time, let the key through.
  abbrev pub allowed : ℕ → F → List ℕ → TokenBucketLimiter F → ℕ
  allowed key now [] l = 0
  allowed key now (j ∷ calls) l =
      let (l1, passed) = check l j now in
      let rest = allowed key now calls l1 in if j == key && passed then rest + 1 else rest

  min-AtMost : IsExact F → (n k : ℕ) (a b : F) → AtMost n a → AtMost k b → AtMost k (min a b)
  min-AtMost exact n k a b g h = elim (Bool-cases (b <? a)) [
    | inl e ↦ rw e h
    | inr e ↦ rw e (exact.not_lt_at_most n k a b e g h)
  ]

  min-AtMost_left : IsExact F → (n : ℕ) (a b : F) → AtMost n a → AtMost n (min a b)
  min-AtMost_left exact n a b h = elim (Bool-cases (b <? a)) [
    | inl e ↦ rw e (exact.lt_at_most n a b e h)
    | inr e ↦ rw e h
  ]

  -- The limiter holds at most n tokens, and the clock and the rate are finite.
  abbrev IsBounded : ℕ → F → TokenBucketLimiter F → Type 0
  IsBounded n now l =
      AtMost n l.capacity × (fl.is_finite now ≡ true) × (fl.is_finite l.refill_per_sec ≡ true)

  allow-refilled :
      (exact : IsExact F) (l : TokenBucketLimiter F) (now x : F) (n k : ℕ)
      → IsBounded n now l
      → AtMost k x
      → AtMost k (refilled l now (record { tokens = x; last = now }))
  allow-refilled exact l now x n k (cap, fin, fin') h =
      min-AtMost exact n k l.capacity _ cap (exact.add_nothing k x now l.refill_per_sec fin fin' h)

  abbrev funds : TokenBucketLimiter F → ℕ → F → F
  funds l key now = refilled l now (bucket_of l key now)

  bucket-insert :
      (l : TokenBucketLimiter F) (key j : ℕ) (now : F) (b : Bucket F)
      → bucket_of (record l { buckets = insert j b l.buckets }) key now
        ≡ (if key == j then b else bucket_of l key now)
  bucket-insert l key j now b = ground (arith, lookup-insert key j b l.buckets)

  -- What a check leaves of the funds of a key.
  abbrev Leaves : ℕ → ℕ → ℕ → F → TokenBucketLimiter F → Type 0
  Leaves k key j now l =
      let (l1, passed) = check l j now in
      (k' : ℕ) × AtMost k' (funds l1 key now) × ((if j == key && passed then k' + 1 else k') ≤ k)

  spent :
      (exact : IsExact F) (l : TokenBucketLimiter F) (now x : F) (n k : ℕ)
      → IsBounded n now l
      → k ≤ 2 ^ 53
      → AtMost k x
      → (unit ≤? x) ≡ true
      → (k' : ℕ) × AtMost k' (refilled l now (record { tokens = x ⊖ unit; last = now }))
        × (k' + 1 ≤ k)
  spent exact l now x n zero bounded small h e = let none_left = exact.below_unit x h in cc
  spent exact l now x n (suc k) bounded small h e = (
    k,
    allow-refilled exact l now (x ⊖ unit) n k bounded (exact.sub_unit k x (omega arith) h),
    omega arith,
  )

  allow-Leaves :
      (exact : IsExact F) (l : TokenBucketLimiter F) (now : F) (b : Bucket F) (n k : ℕ)
      → IsBounded n now l
      → k ≤ 2 ^ 53
      → AtMost k (refilled l now b)
      → let (b1, passed) = allow l now b in
        (k' : ℕ) × AtMost k' (refilled l now b1) × ((if passed then k' + 1 else k') ≤ k)
  unfolding allow
  allow-Leaves exact l now b n k bounded small h = elim (Bool-cases (unit ≤? refilled l now b)) [
    | inr e ↦ rw e (k, allow-refilled exact l now (refilled l now b) n k bounded h, omega arith)
    | inl e ↦ rw e (spent exact l now (refilled l now b) n k bounded small h e)
  ]

  check-Leaves :
      (exact : IsExact F) (l : TokenBucketLimiter F) (key j : ℕ) (now : F) (n k : ℕ)
      → IsBounded n now l
      → k ≤ 2 ^ 53
      → AtMost k (funds l key now)
      → Leaves k key j now l
  unfolding check
  check-Leaves exact l key j now n k bounded small h =
      let b = (allow l now (bucket_of l j now)).0 in
      let found = bucket-insert l key j now b in
      let l1 : TokenBucketLimiter F = record l { buckets = insert j b l.buckets } in
      elim (Bool-cases (j == key)) [
        | inr e ↦
            let same : bucket_of l1 key now ≡ bucket_of l key now = ground (arith, found, e) in
            (k, subst (λ x. AtMost k (refilled l now x)) (sym same) h, ground (arith, e))
        | inl e ↦
            let own : AtMost k (funds l j now) =
              subst (λ i. AtMost k (funds l i now)) (sym ((==_iff j key).0 e)) h in
            let (k', left, le) =
              allow-Leaves exact l now (bucket_of l j now) n k bounded small own in
            let same : bucket_of l1 key now ≡ b = ground (arith, found, e) in
            (k', subst (λ x. AtMost k' (refilled l now x)) (sym same) left, ground (arith, e, le))
      ]

  -- The calls of all keys at one reading of the clock.
  allowed-le :
      (exact : IsExact F) (l : TokenBucketLimiter F) (key : ℕ) (now : F) (n k : ℕ) (calls : List ℕ)
      → IsBounded n now l
      → k ≤ 2 ^ 53
      → AtMost k (funds l key now)
      → allowed key now calls l ≤ k
  unfolding check
  allowed-le exact l key now n k [] bounded small h = omega arith
  allowed-le exact l key now n k (j ∷ calls) bounded small h =
      let (k', left, le) = check-Leaves exact l key j now n k bounded small h in
      let fewer : k' ≤ 2 ^ 53 = ground (arith, le, small) in
      let rest = allowed-le exact (check l j now).0 key now n k' calls bounded fewer left in
      ground (arith, rest, le)

  -- Given the facts of IEEE 754, a finite clock and a finite rate, and a capacity of at most n tokens:
  -- however the calls of all keys mix at one reading of the clock, at most n calls of one key pass,
  -- from whatever state the limiter was in.
  pub check-allowed_le :
      IsExact F
      → (l : TokenBucketLimiter F) (key : ℕ) (now : F) (n : ℕ) (calls : List ℕ)
      → AtMost n l.capacity
      → fl.is_finite now ≡ true
      → fl.is_finite l.refill_per_sec ≡ true
      → n ≤ 2 ^ 53
      → allowed key now calls l ≤ n
  check-allowed_le exact l key now n calls cap fin fin' small =
      allowed-le exact l key now n n calls (cap, fin, fin') small
        (min-AtMost_left exact n l.capacity _ cap)
