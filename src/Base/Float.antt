-- ===== src/Base/Float.antt =====
-- float64 is not implemented by the program: its operations are a parameter of what computes with
-- them. `seconds` is time.Duration.Seconds, `milli` the constant 0.001.
use mathlib.Core.Bool.{Bool}
use kratos_kit.Base.Int.{ℤ}

pub record Float64 : Type 1 where
  pub Float : Type 0
  pub of_int : ℤ → Float
  pub milli : Float
  pub seconds : ℤ → Float
  pub trunc : Float → ℤ
  pub ceil : Float → Float
  pub add : Float → Float → Float
  pub sub : Float → Float → Float
  pub mul : Float → Float → Float
  pub div : Float → Float → Float
  pub pow : Float → Float → Float
  pub min_float : Float → Float → Float
  pub max_float : Float → Float → Float
  pub ltb_float : Float → Float → Bool
  pub leb_float : Float → Float → Bool
  pub is_inf : Float → Bool
  pub is_nan : Float → Bool
