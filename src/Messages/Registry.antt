-- ===== src/Messages/Registry.antt =====
-- robomaster_sim/src/command.cpp: the messages that the command server registers, in the order of
-- the constructor's calls of `register_message`, under the keys of their `Proto<set, cmd>`.
use msde_robotics.Prelude.{ℕ, List, [], ◌∷◌, Option, none, some, ◌==◌, if◌then◌else◌}
use msde_robotics.Wire.Bytes.{◌>>=◌, key_from}
use msde_robotics.Wire.Frame.{RequestT}
use msde_robotics.Messages.System.{
  SdkHeartBeat, read_sdk_heart_beat, SetSdkMode, read_set_sdk_mode, SetRobotMode,
  read_set_robot_mode, GetRobotMode, read_get_robot_mode, SubNodeReset, read_sub_node_reset,
  SubscribeAddNode, read_subscribe_add_node, GetVersionRm, read_get_version_rm, GetProductVersion,
  read_get_product_version, GetSn, read_get_sn, PlaySound, read_play_sound,
}
use msde_robotics.Messages.Vision.{
  VisionDetectEnable, read_vision_detect_enable, StreamCtrl, read_stream_ctrl, VisionDetectStatus,
  read_vision_detect_status, VisionSetColor, read_vision_set_color, GetZoom, read_get_zoom,
  TakePhoto, read_take_photo, SetWhiteBalance, read_set_white_balance, SetZoom, read_set_zoom,
}
use msde_robotics.Messages.Chassis.{
  ChassisSpeedMode, read_chassis_speed_mode, PositionMove, read_position_move, SetWheelSpeed,
  read_set_wheel_speed, ChassisPwmPercent, read_chassis_pwm_percent, ChassisPwmFreq,
  read_chassis_pwm_freq, ChassisSerialSet, read_chassis_serial_set, ChassisSetWorkMode,
  read_chassis_set_work_mode,
}
use msde_robotics.Messages.Subscriber.{
  AddSubMsg, read_add_sub_msg, DelMsg, read_del_msg, ChassisSerialMsgSend,
  read_chassis_serial_msg_send,
}
use msde_robotics.Messages.Light.{
  SetSystemLed, read_set_system_led, BlasterFire, read_blaster_fire, BlasterSetLed,
  read_blaster_set_led,
}
use msde_robotics.Messages.Arm.{
  GripperCtrl, read_gripper_ctrl, RoboticArmMoveCtrl, read_robotic_arm_move_ctrl, ServoGetAngle,
  read_servo_get_angle, ServoModeSet, read_servo_mode_set, ServoControl, read_servo_control,
  ServoCtrlSet, read_servo_ctrl_set, RoboticArmGetPostion, read_robotic_arm_get_postion,
}
use msde_robotics.Messages.Sensor.{
  SetArmorParam, read_set_armor_param, SensorGetData, read_sensor_get_data,
}
use msde_robotics.Messages.Gimbal.{
  GimbalSetWorkMode, read_gimbal_set_work_mode, GimbalCtrlSpeed, read_gimbal_ctrl_speed, GimbalCtrl,
  read_gimbal_ctrl, GimbalRotate, read_gimbal_rotate, GimbalRecenter, read_gimbal_recenter,
}

-- A request as its handler receives it.
pub data Request : Type 0 where
  sdk_heart_beat : SdkHeartBeat → Request
  set_sdk_mode : SetSdkMode → Request
  set_robot_mode : SetRobotMode → Request
  get_robot_mode : GetRobotMode → Request
  sub_node_reset : SubNodeReset → Request
  subscribe_add_node : SubscribeAddNode → Request
  vision_detect_enable : VisionDetectEnable → Request
  chassis_speed_mode : ChassisSpeedMode → Request
  add_sub_msg : AddSubMsg → Request
  del_msg : DelMsg → Request
  get_version_rm : GetVersionRm → Request
  get_product_version : GetProductVersion → Request
  get_sn : GetSn → Request
  set_system_led : SetSystemLed → Request
  play_sound : PlaySound → Request
  position_move : PositionMove → Request
  set_wheel_speed : SetWheelSpeed → Request
  chassis_pwm_percent : ChassisPwmPercent → Request
  chassis_pwm_freq : ChassisPwmFreq → Request
  gripper_ctrl : GripperCtrl → Request
  robotic_arm_move_ctrl : RoboticArmMoveCtrl → Request
  stream_ctrl : StreamCtrl → Request
  vision_detect_status : VisionDetectStatus → Request
  set_armor_param : SetArmorParam → Request
  vision_set_color : VisionSetColor → Request
  sensor_get_data : SensorGetData → Request
  chassis_serial_set : ChassisSerialSet → Request
  chassis_serial_msg_send : ChassisSerialMsgSend → Request
  servo_get_angle : ServoGetAngle → Request
  servo_mode_set : ServoModeSet → Request
  servo_control : ServoControl → Request
  servo_ctrl_set : ServoCtrlSet → Request
  gimbal_set_work_mode : GimbalSetWorkMode → Request
  gimbal_ctrl_speed : GimbalCtrlSpeed → Request
  gimbal_ctrl : GimbalCtrl → Request
  gimbal_rotate : GimbalRotate → Request
  gimbal_recenter : GimbalRecenter → Request
  blaster_fire : BlasterFire → Request
  blaster_set_led : BlasterSetLed → Request
  chassis_set_work_mode : ChassisSetWorkMode → Request
  robotic_arm_get_postion : RoboticArmGetPostion → Request
  get_zoom : GetZoom → Request
  take_photo : TakePhoto → Request
  set_white_balance : SetWhiteBalance → Request
  set_zoom : SetZoom → Request

abbrev pub Parser : Type 0
Parser = RequestT → List ℕ → Option Request

abbrev pub parsed : {A : Type 0} → (A → Request) → (RequestT → List ℕ → Option A) → Parser
parsed make read request buffer = do fields ← read request buffer; some (make fields)

unfoldable pub registered : List (ℕ × Parser)
registered =
    (key_from 0x3f 0xd5, parsed sdk_heart_beat read_sdk_heart_beat)
    ∷ (key_from 0x3f 0xd1, parsed set_sdk_mode read_set_sdk_mode)
    ∷ (key_from 0x3f 0x46, parsed set_robot_mode read_set_robot_mode)
    ∷ (key_from 0x3f 0x47, parsed get_robot_mode read_get_robot_mode)
    ∷ (key_from 0x48 0x2, parsed sub_node_reset read_sub_node_reset)
    ∷ (key_from 0x48 0x1, parsed subscribe_add_node read_subscribe_add_node)
    ∷ (key_from 0xa 0xa3, parsed vision_detect_enable read_vision_detect_enable)
    ∷ (key_from 0x3f 0x21, parsed chassis_speed_mode read_chassis_speed_mode)
    ∷ (key_from 0x48 0x3, parsed add_sub_msg read_add_sub_msg)
    ∷ (key_from 0x48 0x4, parsed del_msg read_del_msg)
    ∷ (key_from 0x0 0x1, parsed get_version_rm read_get_version_rm)
    ∷ (key_from 0x0 0x4f, parsed get_product_version read_get_product_version)
    ∷ (key_from 0x0 0x51, parsed get_sn read_get_sn)
    ∷ (key_from 0x3f 0x33, parsed set_system_led read_set_system_led)
    ∷ (key_from 0x3f 0xb3, parsed play_sound read_play_sound)
    ∷ (key_from 0x3f 0x25, parsed position_move read_position_move)
    ∷ (key_from 0x3f 0x20, parsed set_wheel_speed read_set_wheel_speed)
    ∷ (key_from 0x3f 0x3c, parsed chassis_pwm_percent read_chassis_pwm_percent)
    ∷ (key_from 0x3f 0x2b, parsed chassis_pwm_freq read_chassis_pwm_freq)
    ∷ (key_from 0x33 0x11, parsed gripper_ctrl read_gripper_ctrl)
    ∷ (key_from 0x3f 0xb5, parsed robotic_arm_move_ctrl read_robotic_arm_move_ctrl)
    ∷ (key_from 0x3f 0xd2, parsed stream_ctrl read_stream_ctrl)
    ∷ (key_from 0xa 0xa5, parsed vision_detect_status read_vision_detect_status)
    ∷ (key_from 0x3f 0x7, parsed set_armor_param read_set_armor_param)
    ∷ (key_from 0xa 0xab, parsed vision_set_color read_vision_set_color)
    ∷ (key_from 0x3f 0xf0, parsed sensor_get_data read_sensor_get_data)
    ∷ (key_from 0x3f 0xc0, parsed chassis_serial_set read_chassis_serial_set)
    ∷ (key_from 0x3f 0xc1, parsed chassis_serial_msg_send read_chassis_serial_msg_send)
    ∷ (key_from 0x33 0x15, parsed servo_get_angle read_servo_get_angle)
    ∷ (key_from 0x33 0x16, parsed servo_mode_set read_servo_mode_set)
    ∷ (key_from 0x33 0x17, parsed servo_control read_servo_control)
    ∷ (key_from 0x3f 0xb7, parsed servo_ctrl_set read_servo_ctrl_set)
    ∷ (key_from 0x4 0x4c, parsed gimbal_set_work_mode read_gimbal_set_work_mode)
    ∷ (key_from 0x4 0xc, parsed gimbal_ctrl_speed read_gimbal_ctrl_speed)
    ∷ (key_from 0x4 0xd, parsed gimbal_ctrl read_gimbal_ctrl)
    ∷ (key_from 0x3f 0xb0, parsed gimbal_rotate read_gimbal_rotate)
    ∷ (key_from 0x3f 0xb2, parsed gimbal_recenter read_gimbal_recenter)
    ∷ (key_from 0x3f 0x51, parsed blaster_fire read_blaster_fire)
    ∷ (key_from 0x3f 0x55, parsed blaster_set_led read_blaster_set_led)
    ∷ (key_from 0x3f 0x19, parsed chassis_set_work_mode read_chassis_set_work_mode)
    ∷ (key_from 0x33 0x14, parsed robotic_arm_get_postion read_robotic_arm_get_postion)
    ∷ (key_from 0x2 0x35, parsed get_zoom read_get_zoom)
    ∷ (key_from 0x2 0x1, parsed take_photo read_take_photo)
    ∷ (key_from 0x2 0x2c, parsed set_white_balance read_set_white_balance)
    ∷ (key_from 0x2 0x34, parsed set_zoom read_set_zoom)
    ∷ []

-- `callbacks.at(key)`; a later registration under the same key would replace an earlier one.
unfoldable pub find_callback {ℓ} : {A : Type ℓ} → ℕ → List (ℕ × A) → Option A
find_callback key [] = none
find_callback key ((k, h) ∷ rest) = elim (find_callback key rest) [
  | some later ↦ some later
  | none ↦ if k == key then some h else none
]
