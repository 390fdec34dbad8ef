-- ===== src/Float/Decimals.antt =====
-- Decimals with seven places as an instance of the floats, for the tests.
use stock_platform.Prelude.{
  ℕ, ◌+◌, ◌-◌, ◌*◌, ◌/◌, Bool, true, false, some, arith, ◌==◌, if◌then◌else◌,
}
use Prim.Native.Nat.{◌^◌}
use stock_platform.Prelude.Int.{ℤ, pos, negsuc, pos_part, neg_part, ◌+ℤ◌, ◌-ℤ◌, ltb_ℤ, leb_ℤ}
use stock_platform.Float.Defs.{Float, IsIeee}

-- In units of 1 / 10^7; a literal is rounded up, so that none but zero is zero.
abbrev pub Fixed : Type 0
Fixed = ℤ

abbrev pub fixed : ℕ → Fixed
fixed n = pos (n * 10_000_000)

abbrev magnitude : ℤ → ℕ
magnitude z = pos_part z + neg_part z

abbrev is_negative : ℤ → Bool
is_negative (pos _) = false
is_negative (negsuc _) = true

abbrev signed : Bool → ℕ → ℤ
signed false n = pos n
signed true n = if n == 0 then pos 0 else negsuc (n - 1)

abbrev differ : Bool → Bool → Bool
differ false s = s
differ true false = true
differ true true = false

-- An operation on magnitudes, with the sign of a product.
abbrev by_sign : (ℕ → ℕ → ℕ) → ℤ → ℤ → ℤ
by_sign f a b = signed (differ (is_negative a) (is_negative b)) (f (magnitude a) (magnitude b))

abbrev floor_fixed : ℤ → ℤ
floor_fixed (pos n) = pos (n / 10_000_000)
floor_fixed (negsuc n) = negsuc (n / 10_000_000)

instance abbrev pub fixed_float : Float Fixed
fixed_float = record {
  literal = λ m k. pos ((m * 10_000_000 + (10 ^ k - 1)) / 10 ^ k);
  of_ℕ = fixed;
  add = ◌+ℤ◌;
  sub = ◌-ℤ◌;
  mul = by_sign (λ a b. a * b / 10_000_000);
  div = by_sign (λ a b. a * 10_000_000 / b);
  neg = λ a. pos 0 -ℤ a;
  lt = ltb_ℤ;
  le = leb_ℤ;
  is_finite = λ _. true;
  int = λ a. some (signed (is_negative a) (magnitude a / 10_000_000));
  floor = λ a. some (floor_fixed a);
  round = λ a _. a;
}

pub Fixed-IsIeee : IsIeee Fixed
Fixed-IsIeee = record {
  sub_not_neg = λ a b h. ground arith;
  add_not_neg = λ a b h k. ground arith;
  lt_irrefl = λ a. ground arith;
}
