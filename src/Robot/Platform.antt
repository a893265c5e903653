-- ===== src/Robot/Platform.antt =====
-- The floating-point unit, which is not code of this repository. A `float` and a `double` are the
-- numbers that their 32 or 64 bits spell, and the operations on them are parameters.
use msde_robotics.Prelude.{ℕ, Bool}
use msde_robotics.Wire.Bytes.{Float}

abbrev pub Double : Type 0
Double = ℕ

pub record Arithmetic : Type 0 where
  pub add : Float → Float → Float
  pub sub : Float → Float → Float
  pub mul : Float → Float → Float
  pub div : Float → Float → Float
  pub lt : Float → Float → Bool
  pub le : Float → Float → Bool
  pub eq : Float → Float → Bool
  pub of_ℕ : ℕ → Float
  -- The conversion to `double`, and the order there.
  pub widen : Float → Double
  pub lt_double : Double → Double → Bool

-- 0.0f, 1.0f and 3.0f, and 3.0 as a `double`, bit by bit.
abbrev pub zero_f : Float
zero_f = 0

abbrev pub one_f : Float
one_f = 0x3f80_0000

abbrev pub three_f : Float
three_f = 0x4040_0000

abbrev pub three_d : Double
three_d = 0x4008_0000_0000_0000
