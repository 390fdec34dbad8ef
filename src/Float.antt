-- ===== src/Float.antt =====
-- Python's `float`, which the code only uses through the operations of `Float`. The type and its
-- operations are parameters; `IsIeee` names the facts of IEEE 754 that proofs rely on, all of which
-- hold for NaN and the infinities too. `Fixed` is a type of decimals that meets them, for the tests.
mod Defs
mod Decimals
pub use Defs.{
  Float, IsIeee, ◌⊕◌, ◌⊖◌, ◌⊗◌, ◌<?◌, ◌≤?◌, nought, unit, is_zero, max, min, abs, sum_from, sum,
  NotNeg,
}
unfoldable pub use Defs.{divide}
pub use Decimals.{Fixed, fixed, fixed_float, Fixed-IsIeee}
