-- ===== src/Robot/Gimbals.antt =====
-- robomaster_sim/include/robot/gimbal.hpp and src/robot/gimbal.cpp.
pub mod Control
use msde_robotics.Prelude.{Bool, true, false, not, ◌&&◌, ◌||◌, if◌then◌else◌, Option, none, some}
use msde_robotics.Wire.Bytes.{Float}
use msde_robotics.Robot.Platform.{zero_f, one_f}
use msde_robotics.Robot.Maths.{Math, clamp, max_f, normalize, deg2rad, half_f, two_pi_d}
use msde_robotics.Robot.Geometry.{
  Vector3, Attitude, GimbalValues, Imu, zero_vector, zero_attitude, zero_imu, gimbal_values,
  add_vector, sub_vector, add_attitude,
}
use msde_robotics.Robot.Devices.{ControllableValue}
use msde_robotics.Robot.Servos.{
  ServoMode, Servo, angle, speed, differ_bool, servo, will_pass_limits,
}

pub data GimbalMode : Type 0 where
  attitude_mode velocity_mode : GimbalMode

pub data Frame : Type 0 where
  chassis fixed gimbal : Frame

abbrev pub is_attitude : GimbalMode → Bool
is_attitude attitude_mode = true
is_attitude velocity_mode = false

abbrev differ_gimbal_mode : GimbalMode → GimbalMode → Bool
differ_gimbal_mode attitude_mode attitude_mode = false
differ_gimbal_mode velocity_mode velocity_mode = false
differ_gimbal_mode _ _ = true

abbrev is_fixed : Frame → Bool
is_fixed fixed = true
is_fixed _ = false

abbrev is_chassis : Frame → Bool
is_chassis chassis = true
is_chassis _ = false

abbrev is_gimbal : Frame → Bool
is_gimbal gimbal = true
is_gimbal _ = false

pub record Gimbal : Type 0 where
  pub yaw_servo : Servo
  pub pitch_servo : Servo
  pub mode : GimbalMode
  pub chassis_imu : Imu
  pub chassis_attitude : Attitude
  pub target_angular_velocity : Vector3
  pub target_attitude : Attitude
  pub performing_action : Bool
  pub following_chassis : Bool
  pub control_speed : GimbalValues Float

abbrev pub with_speed : Float → Servo → Servo
with_speed v s = record s {
  speed = record s.speed { desired = v };
  mode = record s.mode { desired = speed };
}

abbrev pub with_angle : Float → Servo → Servo
with_angle v s = record s {
  angle = record s.angle { desired = v };
  mode = record s.mode { desired = angle };
}

abbrev pub with_enabled : Bool → Servo → Servo
with_enabled value s = record s { enabled = record s.enabled { desired = value } }

-- `current_angles`, `target_angles`, `current_speeds` and `target_speeds`.
unfoldable pub current_angles : Gimbal → GimbalValues Float
current_angles g = record { yaw = g.yaw_servo.angle.current; pitch = g.pitch_servo.angle.current }

unfoldable pub target_angles : Gimbal → GimbalValues Float
target_angles g = record { yaw = g.yaw_servo.angle.target; pitch = g.pitch_servo.angle.target }

unfoldable pub current_speeds : Gimbal → GimbalValues Float
current_speeds g = record { yaw = g.yaw_servo.speed.current; pitch = g.pitch_servo.speed.current }

unfoldable pub target_speeds : Gimbal → GimbalValues Float
target_speeds g = record { yaw = g.yaw_servo.speed.target; pitch = g.pitch_servo.speed.target }

unfoldable pub enable : Bool → Gimbal → Gimbal
enable value g = record g {
  yaw_servo = with_enabled value g.yaw_servo;
  pitch_servo = with_enabled value g.pitch_servo;
}

unfoldable pub reset_target_speeds : Gimbal → Gimbal
reset_target_speeds g = record g { target_angular_velocity = zero_vector }

module _ (m : Math) where
  open m use {fp, neg, abs, add_double, sub_double, narrow}
  open fp use {add, sub, mul, div, lt, widen}

  -- 540 degrees per second; the parameter `memory` is the content of `control_speed`, which the
  -- constructor does not set.
  unfoldable pub gimbal_max_speed : Float
  gimbal_max_speed = deg2rad m 0x4407_0000

  unfoldable pub new_gimbal : GimbalValues Float → Gimbal
  unfolding servo gimbal_max_speed
  new_gimbal memory = record {
    yaw_servo = servo true (deg2rad m 0xc37a_0000) (deg2rad m 0x437a_0000) gimbal_max_speed;
    pitch_servo = servo true (deg2rad m 0xc1f0_0000) (deg2rad m 0x41c8_0000) gimbal_max_speed;
    mode = attitude_mode;
    chassis_imu = zero_imu;
    chassis_attitude = zero_attitude;
    target_angular_velocity = zero_vector;
    target_attitude = zero_attitude;
    performing_action = false;
    following_chassis = false;
    control_speed = memory;
  }

  unfoldable pub attitude : Frame → Gimbal → Attitude
  attitude frame g =
      let value : Attitude = record {
        yaw = g.yaw_servo.angle.current;
        pitch = g.pitch_servo.angle.current;
        roll = zero_f;
      } in
      if is_fixed frame then add_attitude m value g.chassis_attitude else value

  unfoldable pub angular_velocity : Frame → Gimbal → Vector3
  angular_velocity frame g =
      let value : Vector3 = record {
        x = zero_f;
        y = g.pitch_servo.speed.current;
        z = g.yaw_servo.speed.current;
      } in
      if is_fixed frame then add_vector m value g.chassis_imu.angular_velocity else value

  unfoldable pub gimbal_distance : Gimbal → Float
  unfolding attitude
  gimbal_distance g =
      let current =
        attitude (if not g.performing_action && g.following_chassis then chassis else fixed) g in
      if is_attitude g.mode
      then max_f m (abs (sub current.yaw g.target_attitude.yaw))
          (abs (sub current.pitch g.target_attitude.pitch))
      else zero_f

  unfoldable pub reset_target_attitude : Gimbal → Gimbal
  reset_target_attitude g = record g {
    target_attitude = attitude (if g.following_chassis then chassis else fixed) g;
  }

  unfoldable pub follow_chassis : Bool → Gimbal → Gimbal
  unfolding reset_target_attitude
  follow_chassis value g =
      if differ_bool value g.following_chassis
      then reset_target_attitude (record g { following_chassis = value })
      else g

  unfoldable pub set_gimbal_mode : GimbalMode → Gimbal → Gimbal
  unfolding reset_target_attitude
  set_gimbal_mode mode g =
      let next = record g { mode = mode } in
      if differ_gimbal_mode g.mode mode
      then if is_attitude mode then reset_target_attitude next else next
      else g

  unfoldable pub set_target_angles : GimbalValues Float → Gimbal → Gimbal
  unfolding set_gimbal_mode
  set_target_angles angles g = record (set_gimbal_mode attitude_mode g) {
    target_attitude = record { yaw = angles.yaw; pitch = angles.pitch; roll = zero_f };
  }

  unfoldable pub clamp_speed : Float → Float
  unfolding gimbal_max_speed
  clamp_speed v = clamp m v (neg gimbal_max_speed) gimbal_max_speed

  unfoldable pub set_target_speeds : GimbalValues Float → Gimbal → Gimbal
  unfolding set_gimbal_mode clamp_speed
  set_target_speeds speeds g = record (set_gimbal_mode velocity_mode g) {
    target_angular_velocity = record {
      x = zero_f;
      y = clamp_speed speeds.pitch;
      z = clamp_speed speeds.yaw;
    };
  }

  unfoldable pub set_control_speeds : GimbalValues Float → Gimbal → Gimbal
  unfolding clamp_speed
  set_control_speeds speeds g = record g {
    control_speed = record { pitch = clamp_speed speeds.pitch; yaw = clamp_speed speeds.yaw };
  }

  -- One round of the loop of `fixed_angles`. The second test of every round is on the frame of the
  -- yaw, `gimbal_yaw`.
  fixed_angle : Frame → Bool → Float → Float → Servo → Float → Float
  fixed_angle frame gimbal_yaw chassis_angle servo_angle s value =
      let turn = normalize m (sub (sub value chassis_angle) servo_angle) in
      let delta =
        if lt (add servo_angle turn) s.min_angle
        then narrow (add_double (widen turn) two_pi_d)
        else if lt s.max_angle (add servo_angle turn)
        then narrow (sub_double (widen turn) two_pi_d)
        else turn in
      if is_chassis frame
      then add value chassis_angle
      else if gimbal_yaw
      then add (add value chassis_angle) servo_angle
      else add (add delta chassis_angle) servo_angle

  unfoldable pub fixed_angles :
      GimbalValues Float → GimbalValues Frame → Gimbal → GimbalValues Float
  unfolding fixed_angle current_angles
  fixed_angles value frame g =
      let chassis_angles = gimbal_values g.chassis_attitude in
      let servo_angles = current_angles g in
      let by_gimbal = is_gimbal frame.yaw in
      record {
        yaw =
            fixed_angle frame.yaw by_gimbal chassis_angles.yaw servo_angles.yaw g.yaw_servo
              value.yaw;
        pitch =
            fixed_angle frame.pitch by_gimbal chassis_angles.pitch servo_angles.pitch g.pitch_servo
              value.pitch;
      }
