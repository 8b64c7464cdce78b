-- ===== src/Double.antt =====
-- All that the modelled code does with a `double`: constants, arithmetic, comparisons, conversions
-- and the functions of <cmath> and TMath. `decimal m e` is the literal m / 10 ^ e; `trunc` is the
-- conversion to an integer type. No law of rounding is assumed.
mod Whole
unfoldable pub use Whole.{whole_double}
pub mod Interface
pub use Interface.{
  Double, ◌⊕◌, ◌⊖◌, ◌⊗◌, ◌⊘◌, ◌≺◌, ◌≼◌, of_ℤ, of_ℕ, decimal, trunc, lesser, greater,
}
