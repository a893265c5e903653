-- ===== src/Server/Subjects.antt =====
-- robomaster_sim/src/topic.cpp: what `Topic::subject_data` publishes, over the robot's state.
pub mod Speeds
use msde_robotics.Prelude.{
  ℕ, zero, suc, ◌+◌, ◌*◌, ◌%◌, ◌^◌, List, [], ◌∷◌, Bool, true, false, not, ◌&&◌, ltb, ◌==◌,
  if◌then◌else◌,
}
use msde_robotics.Prelude.Int.{ℤ, pos, negsuc, neg, ltb_ℤ, pattern_of}
use msde_robotics.Prelude.SortedMap.{or_else}
use msde_robotics.Wire.Bytes.{Float}
use msde_robotics.Robot.Platform.{zero_f, one_f}
use msde_robotics.Robot.Maths.{Math, normalize, rad2deg, rpm_from_angular_speed, two_pi_d}
use msde_robotics.Robot.Geometry.{Attitude, Twist2D, Pose2D, Vector3, WheelValues}
use msde_robotics.Robot.Devices.{ToFReading}
use msde_robotics.Robot.Gimbals.{Frame, attitude}
use msde_robotics.Robot.Wheels.{BaseFrame, get_twist}
use msde_robotics.Robot.Machine.{Robot}
use msde_robotics.Robot.Setters.{get_servo_angle, get_servo_speed}
use msde_robotics.Server.Pushes.{servo_angle_value}
use msde_robotics.Commands.Subjects.{
  Velocity, Position, AttiInfo, ChassisMode, Esc, Imu, SaStatus, Sbus, Battery, ServoData, ToFData,
  GimbalPos, battery, encode_velocity, encode_position, encode_atti_info, encode_chassis_mode,
  encode_esc, encode_imu, encode_sa_status, encode_sbus, encode_battery, encode_gripper, encode_arm,
  encode_servo, encode_tof, encode_gimbal_pos, encode_adapter,
}
use msde_robotics.Server.Updates.Motion.{
  update_velocity, update_esc, update_atti_info, update_imu, update_position_data, update_sa_status,
  update_chassis_mode,
}
use msde_robotics.Server.Updates.Devices.{
  update_sbus, update_arm, update_servo_data, update_tof, update_gimbal_pos,
}

-- The fields that a subject's `update` leaves as they are.
pub record Kept : Type 0 where
  pub sa_status : SaStatus
  pub sbus : Sbus
  pub tof : List ToFData
  pub gimbal_pos : GimbalPos

module _ (m : Math) where
  -- `update` and `encode` of the subject with this uid; another uid has no topic.
  unfoldable pub subject_data : Kept → Robot → ℕ → List ℕ
  subject_data k r uid =
      if uid == 0x0002000949a4009c
      then encode_velocity (update_velocity m r)
      else if uid == 0x00020009c14cb7c5
      then encode_esc (update_esc m r)
      else if uid == 0x000200096b986306
      then encode_atti_info (update_atti_info m r)
      else if uid == 0x00020009a7985b8d
      then encode_imu (update_imu m r)
      else if uid == 0x00020009eeb7cece
      then encode_position (update_position_data m r)
      else if uid == 0x000200094a2c6d55
      then encode_sa_status (update_sa_status m r k.sa_status)
      else if uid == 0x000200094fcb1146
      then encode_chassis_mode (update_chassis_mode r)
      else if uid == 0x000200096862229f
      then encode_battery battery
      else if uid == 0x0002000988223568
      then encode_sbus (update_sbus k.sbus)
      else if uid == 0x0002000926abd64d
      then encode_arm (update_arm m r).0 (update_arm m r).1
      else if uid == 0x00020009124d156a
      then encode_gripper r.gripper.state.current
      else if uid == 0x000200095f0059e7
      then encode_servo (update_servo_data m r)
      else if uid == 0x0002000986e4c05a
      then encode_tof (update_tof m r.tof k.tof)
      else if uid == 0x00020009f79b3c97
      then encode_gimbal_pos (update_gimbal_pos m r k.gimbal_pos)
      else if uid == 0x00020009eebb9ffc
      then encode_adapter
      else []
