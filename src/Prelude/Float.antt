-- ===== src/Prelude/Float.antt =====
-- The `f64` operations that the quota code uses, as an interface: floats are not modelled, and
-- every theorem holds for any implementation (with a law where one is named).
use oxiproxy.Prelude.{Bool}
use oxiproxy.Prelude.Int.{ℤ}

pub record Float : Type 1 where
  pub F : Type 0
  -- The constants 0.0 and 1024.0.
  pub zero : F
  pub kilo : F
  pub add : F → F → F
  pub sub : F → F → F
  pub mul : F → F → F
  pub div : F → F → F
  -- `f64::max`
  pub max : F → F → F
  pub lt : F → F → Bool
  -- `as i64` and `as f64`
  pub to_i64 : F → ℤ
  pub of_i64 : ℤ → F
