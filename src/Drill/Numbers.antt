-- ===== src/Drill/Numbers.antt =====
-- float32 and float64, which are parameters, with what drill.go does with their values.
use gsky.Prelude.{ℕ, Bool}

pub record Floats : Type 1 where
  pub F : Type 0
  pub D : Type 0
  pub zero_f : F
  pub one_f : F
  pub two_f : F
  pub lt : F → F → Bool
  pub le : F → F → Bool
  pub eq : F → F → Bool
  pub is_nan : F → Bool
  pub add : F → F → F
  pub div : F → F → F
  pub of_int : ℕ → F
  -- float64(x), and the float64 operations
  pub widen : F → D
  pub zero_d : D
  pub lt_d : D → D → Bool
  pub add_d : D → D → D
  pub sub_d : D → D → D
  pub mul_d : D → D → D
  pub div_d : D → D → D
  pub of_int_d : ℕ → D
