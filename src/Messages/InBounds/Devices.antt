-- ===== src/Messages/InBounds/Devices.antt =====
-- How many bytes the requests of fixed size need that are about the robot's devices.
use msde_robotics.Prelude.{ℕ, ◌≤◌, ◌≢◌, List, none, arith, length}
use msde_robotics.Wire.Frame.{RequestT}
use msde_robotics.Messages.Light.{read_set_system_led, read_blaster_fire, read_blaster_set_led}
use msde_robotics.Messages.Arm.{
  read_gripper_ctrl, read_robotic_arm_move_ctrl, read_servo_get_angle, read_servo_mode_set,
  read_servo_control, read_servo_ctrl_set, read_robotic_arm_get_postion,
}
use msde_robotics.Messages.Sensor.{read_set_armor_param, read_sensor_get_data}
use msde_robotics.Messages.Gimbal.{
  read_gimbal_set_work_mode, read_gimbal_ctrl_speed, read_gimbal_ctrl, read_gimbal_rotate,
  read_gimbal_recenter,
}
use msde_robotics.Messages.InBounds.{byte-some, read_at-some}

module _ (request : RequestT) (buffer : List ℕ) (long : 19 ≤ length buffer) where
  pub read_set_system_led_in_bounds : read_set_system_led request buffer ≢ none
  unfolding read_set_system_led
  read_set_system_led_in_bounds e = ground (
    arith,
    byte-some 6 buffer (omega arith),
    byte-some 7 buffer (omega arith),
    byte-some 8 buffer (omega arith),
    byte-some 9 buffer (omega arith),
    byte-some 10 buffer (omega arith),
    read_at-some 4 0 buffer (omega arith),
    read_at-some 2 4 buffer (omega arith),
    read_at-some 2 11 buffer (omega arith),
    read_at-some 2 13 buffer (omega arith),
  )

  pub read_gripper_ctrl_in_bounds : read_gripper_ctrl request buffer ≢ none
  unfolding read_gripper_ctrl
  read_gripper_ctrl_in_bounds e = ground (
    arith,
    byte-some 0 buffer (omega arith),
    byte-some 1 buffer (omega arith),
    read_at-some 2 2 buffer (omega arith),
  )

  pub read_robotic_arm_move_ctrl_in_bounds : read_robotic_arm_move_ctrl request buffer ≢ none
  unfolding read_robotic_arm_move_ctrl
  read_robotic_arm_move_ctrl_in_bounds e = ground (
    arith,
    byte-some 0 buffer (omega arith),
    byte-some 1 buffer (omega arith),
    byte-some 2 buffer (omega arith),
    byte-some 3 buffer (omega arith),
    byte-some 4 buffer (omega arith),
    read_at-some 4 5 buffer (omega arith),
    read_at-some 4 9 buffer (omega arith),
    read_at-some 4 13 buffer (omega arith),
  )

  pub read_set_armor_param_in_bounds : read_set_armor_param request buffer ≢ none
  unfolding read_set_armor_param
  read_set_armor_param_in_bounds e = ground (
    arith,
    byte-some 0 buffer (omega arith),
    read_at-some 2 1 buffer (omega arith),
    read_at-some 2 3 buffer (omega arith),
    read_at-some 2 5 buffer (omega arith),
    read_at-some 2 7 buffer (omega arith),
    read_at-some 2 9 buffer (omega arith),
    read_at-some 2 11 buffer (omega arith),
    read_at-some 2 13 buffer (omega arith),
    read_at-some 2 15 buffer (omega arith),
    read_at-some 2 17 buffer (omega arith),
  )

  pub read_sensor_get_data_in_bounds : read_sensor_get_data request buffer ≢ none
  unfolding read_sensor_get_data
  read_sensor_get_data_in_bounds e = ground (arith, byte-some 0 buffer (omega arith))

  pub read_servo_get_angle_in_bounds : read_servo_get_angle request buffer ≢ none
  unfolding read_servo_get_angle
  read_servo_get_angle_in_bounds e = ground (arith, byte-some 0 buffer (omega arith))

  pub read_servo_mode_set_in_bounds : read_servo_mode_set request buffer ≢ none
  unfolding read_servo_mode_set
  read_servo_mode_set_in_bounds e =
      ground (arith, byte-some 0 buffer (omega arith), byte-some 1 buffer (omega arith))

  pub read_servo_control_in_bounds : read_servo_control request buffer ≢ none
  unfolding read_servo_control
  read_servo_control_in_bounds e = ground (
    arith,
    byte-some 0 buffer (omega arith),
    byte-some 1 buffer (omega arith),
    read_at-some 2 2 buffer (omega arith),
  )

  pub read_servo_ctrl_set_in_bounds : read_servo_ctrl_set request buffer ≢ none
  unfolding read_servo_ctrl_set
  read_servo_ctrl_set_in_bounds e = ground (
    arith,
    byte-some 0 buffer (omega arith),
    byte-some 1 buffer (omega arith),
    byte-some 2 buffer (omega arith),
    read_at-some 4 3 buffer (omega arith),
  )

  pub read_gimbal_set_work_mode_in_bounds : read_gimbal_set_work_mode request buffer ≢ none
  unfolding read_gimbal_set_work_mode
  read_gimbal_set_work_mode_in_bounds e =
      ground (arith, byte-some 0 buffer (omega arith), byte-some 1 buffer (omega arith))

  pub read_gimbal_ctrl_speed_in_bounds : read_gimbal_ctrl_speed request buffer ≢ none
  unfolding read_gimbal_ctrl_speed
  read_gimbal_ctrl_speed_in_bounds e = ground (
    arith,
    byte-some 6 buffer (omega arith),
    read_at-some 2 0 buffer (omega arith),
    read_at-some 2 2 buffer (omega arith),
    read_at-some 2 4 buffer (omega arith),
  )

  pub read_gimbal_ctrl_in_bounds : read_gimbal_ctrl request buffer ≢ none
  unfolding read_gimbal_ctrl
  read_gimbal_ctrl_in_bounds e = ground (arith, read_at-some 2 0 buffer (omega arith))

  pub read_gimbal_rotate_in_bounds : read_gimbal_rotate request buffer ≢ none
  unfolding read_gimbal_rotate
  read_gimbal_rotate_in_bounds e = ground (
    arith,
    byte-some 0 buffer (omega arith),
    byte-some 1 buffer (omega arith),
    byte-some 2 buffer (omega arith),
    read_at-some 2 3 buffer (omega arith),
    read_at-some 2 5 buffer (omega arith),
    read_at-some 2 7 buffer (omega arith),
    read_at-some 2 9 buffer (omega arith),
    read_at-some 2 11 buffer (omega arith),
    read_at-some 2 13 buffer (omega arith),
    read_at-some 2 15 buffer (omega arith),
  )

  pub read_gimbal_recenter_in_bounds : read_gimbal_recenter request buffer ≢ none
  unfolding read_gimbal_recenter
  read_gimbal_recenter_in_bounds e = ground (
    arith,
    byte-some 0 buffer (omega arith),
    byte-some 1 buffer (omega arith),
    byte-some 2 buffer (omega arith),
    read_at-some 2 3 buffer (omega arith),
    read_at-some 2 5 buffer (omega arith),
    read_at-some 2 7 buffer (omega arith),
  )

  pub read_blaster_fire_in_bounds : read_blaster_fire request buffer ≢ none
  unfolding read_blaster_fire
  read_blaster_fire_in_bounds e = ground (arith, byte-some 0 buffer (omega arith))

  pub read_blaster_set_led_in_bounds : read_blaster_set_led request buffer ≢ none
  unfolding read_blaster_set_led
  read_blaster_set_led_in_bounds e = ground (
    arith,
    byte-some 0 buffer (omega arith),
    byte-some 1 buffer (omega arith),
    byte-some 2 buffer (omega arith),
    byte-some 3 buffer (omega arith),
    byte-some 4 buffer (omega arith),
    read_at-some 2 5 buffer (omega arith),
  )

  pub read_robotic_arm_get_postion_in_bounds : read_robotic_arm_get_postion request buffer ≢ none
  unfolding read_robotic_arm_get_postion
  read_robotic_arm_get_postion_in_bounds e = ground (arith, byte-some 0 buffer (omega arith))
