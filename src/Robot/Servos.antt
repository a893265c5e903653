-- ===== src/Robot/Servos.antt =====
-- robomaster_sim/include/robot/servo.hpp and gripper.hpp.
use msde_robotics.Prelude.{ℕ, Bool, true, false, not, ◌&&◌, if◌then◌else◌, Option, none, some}
use msde_robotics.Prelude.SortedMap.{or_else}
use msde_robotics.Wire.Bytes.{Float}
use msde_robotics.Robot.Platform.{zero_f}
use msde_robotics.Robot.Maths.{Math, clamp, normalize, deg2rad, half_f}
use msde_robotics.Robot.Devices.{ControllableValue, controllable}

-- `Servo::Mode`, as ANGLE = 0 and SPEED = 1.
pub data ServoMode : Type 0 where
  angle speed : ServoMode

unfoldable pub servo_mode_code : ServoMode → ℕ
servo_mode_code angle = 0
servo_mode_code speed = 1

-- The `!=` of `Mode` and of `bool`.
abbrev pub differ_mode : ServoMode → ServoMode → Bool
differ_mode angle angle = false
differ_mode speed speed = false
differ_mode _ _ = true

abbrev pub differ_bool : Bool → Bool → Bool
differ_bool true b = not b
differ_bool false b = b

pub record Servo : Type 0 where
  pub min_angle : Float
  pub max_angle : Float
  pub max_speed : Float
  pub control_speed : Float
  pub angle : ControllableValue Float
  pub speed : ControllableValue Float
  pub mode : ControllableValue ServoMode
  pub enabled : ControllableValue Bool

abbrev pub is_speed : ServoMode → Bool
is_speed speed = true
is_speed angle = false

unfoldable pub servo : Bool → Float → Float → Float → Servo
unfolding controllable
servo enabled min_angle max_angle max_speed = record {
  min_angle = min_angle;
  max_angle = max_angle;
  max_speed = max_speed;
  control_speed = max_speed;
  angle = controllable zero_f;
  speed = controllable zero_f;
  mode = controllable angle;
  enabled = controllable enabled;
}

-- `Gripper::Status`: pause, open and close; two bits of a request are cast to it.
abbrev pub pause : ℕ
pause = 0

abbrev pub opened : ℕ
opened = 1

abbrev pub closed : ℕ
closed = 2

pub record Gripper : Type 0 where
  pub state : ControllableValue ℕ
  pub power : ControllableValue Float

unfoldable pub gripper : Gripper
unfolding controllable
gripper = record { state = controllable pause; power = controllable half_f }

-- `Gripper::set_target`
unfoldable pub set_gripper : ℕ → Float → Gripper → Gripper
set_gripper state power g = record g {
  state = record g.state { desired = state };
  power = record g.power { desired = power };
}

module _ (m : Math) where
  open m use {fp, abs, neg}
  open fp use {add, sub, mul, div, lt, le}

  -- The constructor's defaults: 1800 degrees each way and 240 degrees per second.
  unfoldable pub default_servo : Bool → Servo
  unfolding servo
  default_servo enabled =
      servo enabled (deg2rad m 0xc4e1_0000) (deg2rad m 0x44e1_0000) (deg2rad m 0x4370_0000)

  unfoldable pub servo_distance : Servo → Float
  servo_distance s = abs (normalize m (sub s.angle.current s.angle.desired))

  -- The speed that the source returns through a reference, where it returns true.
  unfoldable pub will_pass_limits : Float → Servo → Option Float
  will_pass_limits time_step s =
      let next = add (mul s.speed.desired time_step) s.angle.current in
      if lt next s.min_angle && le s.speed.desired zero_f
      then some (div (sub s.min_angle s.angle.current) time_step)
      else if lt s.max_angle next && le zero_f s.speed.desired
      then some (div (sub s.max_angle s.angle.current) time_step)
      else none

  unfoldable pub desired_speed : Float → Servo → Float
  unfolding will_pass_limits
  desired_speed time_step s =
      let limited = or_else (will_pass_limits time_step s) s.speed.desired in
      if s.enabled.target then clamp m limited (neg s.max_speed) s.max_speed else zero_f

  unfoldable pub get_desired_angle : Float → Servo → Float
  unfolding desired_speed
  get_desired_angle time_step s =
      if is_speed s.mode.current
      then add s.angle.current (mul (desired_speed time_step s) time_step)
      else s.angle.desired

  unfoldable pub set_desired_angle : Float → Float → Servo → Servo
  set_desired_angle value time_step s =
      if is_speed s.mode.current
      then if s.enabled.target
        then record s {
          speed = record s.speed { desired = div (sub value s.angle.current) time_step };
        }
        else s
      else record s { angle = record s.angle { desired = value } }
