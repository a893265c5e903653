-- ===== src/Robot/Maths.antt =====
-- The numerical part of robomaster_sim/include/utils.hpp. The operations of the floating-point unit
-- and of the C library are parameters; a constant is the bits of its literal.
use msde_robotics.Prelude.{if◌then◌else◌}
use msde_robotics.Prelude.Int.{ℤ}
use msde_robotics.Wire.Bytes.{Float}
use msde_robotics.Robot.Platform.{Double, Arithmetic, zero_f}

pub record Math : Type 0 where
  pub fp : Arithmetic
  pub neg : Float → Float
  pub abs : Float → Float
  pub sqrt : Float → Float
  pub sin : Float → Float
  pub cos : Float → Float
  pub fmod : Float → Float → Float
  pub neg_double : Double → Double
  pub add_double : Double → Double → Double
  pub sub_double : Double → Double → Double
  pub mul_double : Double → Double → Double
  pub div_double : Double → Double → Double
  pub sin_double : Double → Double
  pub cos_double : Double → Double
  pub fmod_double : Double → Double → Double
  pub round_double : Double → Double
  -- The conversions to `float`, to `int` and from `int`.
  pub narrow : Double → Float
  pub to_ℤ : Double → ℤ
  pub of_ℤ : ℤ → Float
  pub double_of_ℤ : ℤ → Double

-- M_PI, 2 * M_PI, M_PI_2, M_1_PI, 180.0 and 0.01.
abbrev pub pi_d : Double
pi_d = 0x4009_21fb_5444_2d18

abbrev pub two_pi_d : Double
two_pi_d = 0x4019_21fb_5444_2d18

abbrev pub half_pi_d : Double
half_pi_d = 0x3ff9_21fb_5444_2d18

abbrev pub inverse_pi_d : Double
inverse_pi_d = 0x3fd4_5f30_6dc9_c883

abbrev pub degrees_d : Double
degrees_d = 0x4066_8000_0000_0000

-- 0.5f, the `tau` of the gimbal and of `MoveAction`.
abbrev pub half_f : Float
half_f = 0x3f00_0000

module _ (m : Math) where
  open m use {
    fp, sqrt, abs, add_double, sub_double, mul_double, div_double, fmod_double, round_double,
    narrow, to_ℤ, double_of_ℤ,
  }
  open fp use {add, mul, lt, of_ℕ, widen, lt_double}

  -- `std::clamp`, `std::min` and `std::max`.
  unfoldable pub clamp : Float → Float → Float → Float
  clamp v low high = if lt v low then low else if lt high v then high else v

  unfoldable pub min_f : Float → Float → Float
  min_f a b = if lt b a then b else a

  unfoldable pub max_f : Float → Float → Float
  max_f a b = if lt a b then b else a

  unfoldable pub normalize : Float → Float
  normalize value =
      let turned = narrow (fmod_double (add_double (widen value) pi_d) two_pi_d) in
      let positive =
        if lt turned zero_f then narrow (add_double (widen turned) two_pi_d) else turned in
      narrow (sub_double (widen positive) pi_d)

  unfoldable pub deg2rad : Float → Float
  deg2rad value = narrow (div_double (mul_double pi_d (widen value)) degrees_d)

  unfoldable pub rad2deg : Float → Float
  rad2deg value = narrow (mul_double (mul_double degrees_d (widen value)) inverse_pi_d)

  -- 0x404e_0000_0000_0000 is 60.0.
  unfoldable pub angular_speed_from_rpm : ℤ → Float
  angular_speed_from_rpm rpm =
      narrow (div_double (mul_double two_pi_d (double_of_ℤ rpm)) 0x404e_0000_0000_0000)

  unfoldable pub rpm_from_angular_speed : ℤ → ℤ
  rpm_from_angular_speed speed =
      to_ℤ
        (round_double (div_double (mul_double (double_of_ℤ speed) 0x404e_0000_0000_0000) two_pi_d))
