-- ===== src/Cognition/Floats.antt =====
-- The float64 operations that internal/cognition uses. Go's floats are not modelled: the type and
-- its operations are a parameter of what computes with them.
use script_world.Prelude.{ℕ, Bool, List}
use script_world.Prelude.Int.{ℤ}

pub record Floats : Type 1 where
  pub Float : Type 0
  pub ltf : Float → Float → Bool
  pub lef : Float → Float → Bool
  pub addf : Float → Float → Float
  pub subf : Float → Float → Float
  pub mulf : Float → Float → Float
  pub divf : Float → Float → Float
  -- `float64(n)` of an integer that the code holds as a non-negative one.
  pub of_nat : ℕ → Float
  -- `int64(x)`.
  pub to_int : Float → ℤ
  -- `sort.Float64s`.
  pub sort_floats : List Float → List Float
