-- ===== src/Trading/Doubles.antt =====
-- The type `double`, which the strategies compute with: the operations of the floating-point unit are
-- parameters of the components that use them.
use trading_ecosystem.Prelude.{Bool}
use trading_ecosystem.Prelude.Int.{ℤ}

pub record Doubles (Double : Type 0) : Type 0 where
  -- The conversion of an integer
  pub of_int : ℤ → Double
  pub add : Double → Double → Double
  pub sub : Double → Double → Double
  pub mul : Double → Double → Double
  pub div : Double → Double → Double
  -- `<`, `>=` and `!=`
  pub less : Double → Double → Bool
  pub at_least : Double → Double → Bool
  pub differs : Double → Double → Bool
  -- `0.5` and `std::numeric_limits<double>::quiet_NaN()`
  pub half : Double
  pub quiet_nan : Double
