-- ===== src/Server/Updates/Devices.antt =====
-- robomaster_sim/include/command_subjects.hpp: the updates of the subjects about the arm, the servos,
-- the distance sensors, the gimbal and the remote control.
use msde_robotics.Prelude.{ℕ, List, [], ◌∷◌, not, ◌==◌, if◌then◌else◌}
use msde_robotics.Prelude.Int.{ℤ, neg, pattern_of}
use msde_robotics.Prelude.SortedMap.{or_else}
use msde_robotics.Wire.Bytes.{Float}
use msde_robotics.Robot.Platform.{zero_f, one_f}
use msde_robotics.Robot.Maths.{Math, rad2deg}
use msde_robotics.Robot.Devices.{ToFReading}
use msde_robotics.Robot.Gimbals.{Frame, attitude}
use msde_robotics.Robot.Machine.{Robot}
use msde_robotics.Robot.Setters.{get_servo_angle, get_servo_speed}
use msde_robotics.Server.Pushes.{servo_angle_value}
use msde_robotics.Commands.Subjects.{Sbus, ServoData, ToFData, GimbalPos}
use msde_robotics.Server.Updates.Motion.{truncated, rounded}

unfoldable pub update_sbus : Sbus → Sbus
update_sbus s = record s { connect_status = 0 }

module _ (m : Math) where
  open m use {fp, abs, fmod, div_double, round_double, narrow, to_ℤ}
  open fp use {add, mul, div, lt, widen}

  -- In millimetres; 0x447a_0000 is 1000.0f.
  unfoldable pub update_arm : Robot → ℕ × ℕ
  update_arm r = (
    pattern_of 32 (truncated m (mul 0x447a_0000 r.arm_position.x)),
    pattern_of 32 (truncated m (mul 0x447a_0000 r.arm_position.z)),
  )

  -- `SERVO_RAD_PER_SECOND2UNIT` is 0x44cb_b7e4; the left servo has the index 0 and the direction 1,
  -- the right one the direction -1.
  unfoldable pub servo_speed_value : ℕ → Float → ℤ
  servo_speed_value index speed =
      rounded m (mul (mul 0x44cb_b7e4 speed) (if index == 0 then one_f else 0xbf80_0000))

  -- The robot has the first two servos, so that both readings are there.
  unfoldable pub update_servo_data : Robot → ServoData
  unfolding servo_speed_value servo_angle_value
  update_servo_data r =
      let speed_of =
        λ (i : ℕ). pattern_of 16 (servo_speed_value i (or_else (get_servo_speed i r) zero_f)) in
      let angle_of =
        λ (i : ℕ). pattern_of 16 (servo_angle_value m i (or_else (get_servo_angle i r) zero_f)) in
      record {
        valid = 1 ∷ 1 ∷ 0 ∷ 0 ∷ [];
        speed = speed_of 0 ∷ speed_of 1 ∷ 0 ∷ 0 ∷ [];
        angle = angle_of 0 ∷ angle_of 1 ∷ 0 ∷ 0 ∷ [];
      }

  unfoldable pub encode_distance : Float → ℕ
  encode_distance value = pattern_of 16 (truncated m (mul 0x447a_0000 value))

  unfoldable pub tof_data : ToFReading → ToFData
  unfolding encode_distance
  tof_data reading =
      if not reading.active
      then record { cmd_id = 0; direct = 0; flag = 0; distance = 0 }
      else if lt reading.distance zero_f
      then record { cmd_id = 20; direct = 65; flag = 0; distance = 65534 }
      else record {
        cmd_id = 20;
        direct = 65;
        flag = 0xff;
        distance = encode_distance reading.distance;
      }

  -- As many sensors as both lists have; the data of the others stay.
  unfoldable pub update_tof : List ToFReading → List ToFData → List ToFData
  unfolding tof_data
  update_tof [] kept = kept
  update_tof (reading ∷ readings) [] = []
  update_tof (reading ∷ readings) (d ∷ kept) = tof_data reading ∷ update_tof readings kept

  -- -round(rad2deg(10 * angle)); 0x4120_0000 is 10.0f.
  unfoldable pub tenths : Float → ℕ
  tenths angle = pattern_of 16 (neg (rounded m (rad2deg m (mul 0x4120_0000 angle))))

  unfoldable pub update_gimbal_pos : Robot → GimbalPos → GimbalPos
  unfolding tenths attitude
  update_gimbal_pos r s =
      let on_chassis = attitude m Frame.chassis r.gimbal in
      let in_world = attitude m Frame.fixed r.gimbal in
      record s {
        yaw_angle = tenths on_chassis.yaw;
        pitch_angle = tenths on_chassis.pitch;
        yaw_ground_angle = tenths in_world.yaw;
        pitch_ground_angle = tenths in_world.pitch;
      }
