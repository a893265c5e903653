-- ===== src/Robot/Gimbals/Control.antt =====
-- robomaster_sim/src/robot/gimbal.cpp: `Gimbal::update_control`.
use msde_robotics.Prelude.{Bool, true, false, not, ◌||◌, if◌then◌else◌, Option, none, some}
use msde_robotics.Wire.Bytes.{Float}
use msde_robotics.Robot.Platform.{zero_f, one_f}
use msde_robotics.Robot.Maths.{Math, clamp, half_f}
use msde_robotics.Robot.Geometry.{Attitude, Imu, sub_vector}
use msde_robotics.Robot.Servos.{will_pass_limits}
use msde_robotics.Robot.Gimbals.{Gimbal, is_attitude, with_speed, with_angle}

abbrev pub is_some : Option Float → Bool
is_some none = false
is_some (some v) = true

module _ (m : Math) where
  open m use {fp, neg}
  open fp use {add, sub, mul, div}

  -- The desired speed of a servo: the speed towards the target, which an action clamps, less the
  -- turn of the chassis.
  unfoldable pub attitude_speed : Float → Bool → Float → Float → Float → Float → Float → Float
  attitude_speed time_step acting limit target current chassis_angle chassis_speed =
      let towards = div (sub (sub target current) chassis_angle) half_f in
      let world = if acting then clamp m towards (neg limit) limit else towards in
      add (mul (neg chassis_speed) (sub one_f (div time_step half_f))) world

  -- Neither following the chassis, nor without an action: the target is an attitude in the world.
  unfoldable pub control_world : Float → Gimbal → Gimbal
  unfolding attitude_speed
  control_world time_step g =
      let yaw_servo =
        with_speed
          (attitude_speed time_step g.performing_action g.control_speed.yaw g.target_attitude.yaw
            g.yaw_servo.angle.current g.chassis_attitude.yaw g.chassis_imu.angular_velocity.z)
          g.yaw_servo in
      let pitch_servo =
        with_speed
          (attitude_speed time_step g.performing_action g.control_speed.pitch
            g.target_attitude.pitch g.pitch_servo.angle.current g.chassis_attitude.pitch
            g.chassis_imu.angular_velocity.y)
          g.pitch_servo in
      let target = g.target_attitude in
      record g {
        yaw_servo = yaw_servo;
        pitch_servo = pitch_servo;
        target_attitude = record target {
          yaw =
              if is_some (will_pass_limits m time_step yaw_servo)
              then add yaw_servo.angle.current g.chassis_attitude.yaw
              else target.yaw;
          pitch =
              if is_some (will_pass_limits m time_step pitch_servo)
              then add pitch_servo.angle.current g.chassis_attitude.pitch
              else target.pitch;
        };
      }

  unfoldable pub control_following : Gimbal → Gimbal
  control_following g = record g {
    yaw_servo = with_angle g.target_attitude.yaw g.yaw_servo;
    pitch_servo = with_angle g.target_attitude.pitch g.pitch_servo;
  }

  unfoldable pub control_velocity : Float → Gimbal → Gimbal
  control_velocity time_step g =
      let omega = sub_vector m g.target_angular_velocity g.chassis_imu.angular_velocity in
      let yaw_servo = with_speed omega.z g.yaw_servo in
      let pitch_servo = with_speed omega.y g.pitch_servo in
      let target = g.target_angular_velocity in
      record g {
        yaw_servo = yaw_servo;
        pitch_servo = pitch_servo;
        target_angular_velocity = record target {
          z = if is_some (will_pass_limits m time_step yaw_servo) then zero_f else target.z;
          y = if is_some (will_pass_limits m time_step pitch_servo) then zero_f else target.y;
        };
      }

  unfoldable pub update_control : Float → Attitude → Imu → Gimbal → Gimbal
  unfolding control_world control_following control_velocity
  update_control time_step attitude imu g =
      let known = record g { chassis_attitude = attitude; chassis_imu = imu } in
      if is_attitude g.mode
      then if not g.following_chassis || g.performing_action
        then control_world time_step known
        else control_following known
      else control_velocity time_step known
