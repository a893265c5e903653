-- ===== src/Server/Updates/Motion.antt =====
-- robomaster_sim/include/command_subjects.hpp: the updates of the subjects about the robot's motion.
use msde_robotics.Prelude.{◌%◌, List, [], ◌∷◌, Bool, true, false, ◌&&◌, if◌then◌else◌}
use msde_robotics.Prelude.Int.{ℤ, pos, negsuc, neg, ltb_ℤ, pattern_of}
use msde_robotics.Wire.Bytes.{Float}
use msde_robotics.Robot.Platform.{zero_f, one_f}
use msde_robotics.Robot.Maths.{Math, normalize, rad2deg, rpm_from_angular_speed, two_pi_d}
use msde_robotics.Robot.Geometry.{Attitude, Twist2D, Pose2D}
use msde_robotics.Robot.Wheels.{BaseFrame, get_twist}
use msde_robotics.Robot.Machine.{Robot}
use msde_robotics.Commands.Subjects.{Velocity, Position, AttiInfo, ChassisMode, Esc, Imu, SaStatus}

-- `std::clamp<int>`
unfoldable pub clamp_int : ℤ → ℤ → ℤ → ℤ
clamp_int v low high = if ltb_ℤ v low then low else if ltb_ℤ high v then high else v

unfoldable pub update_chassis_mode : Robot → ChassisMode
update_chassis_mode r = record { mis_cur_type = 0; sdk_cur_type = r.mode % 256 }

module _ (m : Math) where
  open m use {fp, abs, fmod, div_double, round_double, narrow, to_ℤ}
  open fp use {add, mul, div, lt, widen}

  -- The three overloads of `from_robot`; 0.0 is the angle of the first two.
  unfoldable pub twist_from_robot : Twist2D → Twist2D
  twist_from_robot v = record { x = v.x; y = m.neg v.y; theta = rad2deg m zero_f }

  unfoldable pub pose_from_robot : Pose2D → Pose2D
  pose_from_robot p = record { x = p.x; y = m.neg p.y; theta = rad2deg m zero_f }

  unfoldable pub attitude_from_robot : Attitude → Attitude
  attitude_from_robot a = record {
    yaw = rad2deg m (normalize m (m.neg a.yaw));
    pitch = rad2deg m (normalize m (m.neg a.pitch));
    roll = rad2deg m (normalize m a.roll);
  }

  unfoldable pub update_velocity : Robot → Velocity
  unfolding twist_from_robot get_twist
  update_velocity r =
      let in_odom = twist_from_robot (get_twist BaseFrame.odom r.chassis) in
      let in_body = twist_from_robot (get_twist BaseFrame.body r.chassis) in
      record {
        vgx = in_odom.x;
        vgy = in_odom.y;
        vgz = in_odom.theta;
        vbx = in_body.x;
        vby = in_body.y;
        vbz = in_body.theta;
      }

  unfoldable pub update_position_data : Robot → Position
  unfolding pose_from_robot
  update_position_data r =
      let p = pose_from_robot r.chassis.odometry.pose in
      record { position_x = p.x; position_y = p.y; position_z = p.theta }

  unfoldable pub update_atti_info : Robot → AttiInfo
  unfolding attitude_from_robot
  update_atti_info r =
      let a = attitude_from_robot r.chassis.attitude in
      record { yaw = a.yaw; pitch = a.pitch; roll = a.roll }

  -- The conversions of a `float` to `int`, without and with rounding first.
  abbrev pub truncated : Float → ℤ
  truncated v = to_ℤ (widen v)

  abbrev pub rounded : Float → ℤ
  rounded v = to_ℤ (round_double (widen v))

  -- `rpm_from_angular_speed` takes an `int`, so that the fraction of the speed is dropped first.
  -- The limits are -8192 and 8191.
  unfoldable pub esc_speed : Float → ℤ
  unfolding clamp_int rpm_from_angular_speed
  esc_speed speed = clamp_int (rpm_from_angular_speed m (truncated speed)) (negsuc 8191) (pos 8191)

  -- 0x46ff_fe00 is 32767.0f.
  unfoldable pub esc_angle : Float → ℤ
  esc_angle angle =
      let turns = fmod (narrow (div_double (widen angle) two_pi_d)) one_f in
      rounded (mul (if lt turns zero_f then add turns one_f else turns) 0x46ff_fe00)

  -- 0x4416_0000 is 600.0f.
  unfoldable pub update_esc : Robot → Esc
  unfolding esc_speed esc_angle
  update_esc r =
      let speeds = r.chassis.wheel_speeds.current in
      let angles = r.chassis.wheel_angles in
      let tick = pattern_of 32 (truncated (mul 0x4416_0000 r.time)) in
      record {
        speed =
            pattern_of 16 (esc_speed speeds.front_right)
            ∷ pattern_of 16 (neg (esc_speed speeds.front_left))
            ∷ pattern_of 16 (neg (esc_speed speeds.rear_left))
            ∷ pattern_of 16 (esc_speed speeds.rear_right)
            ∷ [];
        angle =
            pattern_of 16 (esc_angle angles.front_right)
            ∷ pattern_of 16 (neg (esc_angle angles.front_left))
            ∷ pattern_of 16 (neg (esc_angle angles.rear_left))
            ∷ pattern_of 16 (esc_angle angles.rear_right)
            ∷ [];
        timestamp = tick ∷ tick ∷ tick ∷ tick ∷ [];
        state = 0 ∷ 0 ∷ 0 ∷ 0 ∷ [];
      }

  -- 0x411c_f5c3 is 9.81f.
  unfoldable pub acc : Float → Float
  acc value = div value 0x411c_f5c3

  unfoldable pub update_imu : Robot → Imu
  unfolding acc
  update_imu r =
      let imu = r.chassis.imu in
      record {
        acc_x = acc imu.acceleration.x;
        acc_y = m.neg (acc imu.acceleration.y);
        acc_z = m.neg (acc imu.acceleration.z);
        gyro_x = imu.angular_velocity.x;
        gyro_y = m.neg imu.angular_velocity.y;
        gyro_z = m.neg imu.angular_velocity.z;
      }

  -- Whether no wheel is faster than 10.0f, which is 0x4120_0000.
  unfoldable pub are_static : List Float → Bool
  are_static [] = true
  are_static (v ∷ vs) = let rest = are_static vs in if lt 0x4120_0000 (abs v) then false else rest

  -- 0x3dcc_cccd is 0.1f, 0xbdcc_cccd is -0.1f and 0x3fcc_cccd is 1.6f.
  unfoldable pub update_sa_status : Robot → SaStatus → SaStatus
  unfolding are_static
  update_sa_status r s =
      let w = r.chassis.wheel_speeds.current in
      let static = are_static (w.front_left ∷ w.front_right ∷ w.rear_left ∷ w.rear_right ∷ []) in
      let a = r.chassis.attitude in
      let up = lt a.pitch 0xbdcc_cccd in
      record s {
        static_flag = static;
        up_hill = up;
        down_hill = lt 0x3dcc_cccd a.pitch;
        on_slope = lt 0x3dcc_cccd (abs a.roll);
        roll_over = lt 0x3fcc_cccd (abs (normalize m a.roll));
        hill_static = up && static;
      }
