-- ===== src/Messages/Arm.antt =====
-- robomaster_sim/include/command_messages.hpp: the requests of the gripper, the arm and the servos.
use msde_robotics.Prelude.{ℕ, List, Option, some, ◌/◌, ◌^◌, bit_and}
use msde_robotics.Prelude.Int.{ℤ, signed}
use msde_robotics.Wire.Bytes.{◌>>=◌, byte, read_at}
use msde_robotics.Wire.Frame.{RequestT}

pub record GripperCtrl : Type 0 where
  pub request : RequestT
  pub id : ℕ
  pub control : ℕ
  pub power : ℕ

unfoldable pub read_gripper_ctrl : RequestT → List ℕ → Option GripperCtrl
read_gripper_ctrl request buffer = do
  id ← byte 0 buffer
  control ← byte 1 buffer
  power ← read_at 2 2 buffer
  some (record { request = request; id = id; control = control; power = power })

pub record RoboticArmMoveCtrl : Type 0 where
  pub request : RequestT
  pub action_id : ℕ
  pub action_ctrl : ℕ
  pub freq : ℕ
  pub id : ℕ
  pub mode : ℕ
  pub mask : ℕ
  pub x : ℤ
  pub y : ℤ
  pub z : ℤ

unfoldable pub read_robotic_arm_move_ctrl : RequestT → List ℕ → Option RoboticArmMoveCtrl
read_robotic_arm_move_ctrl request buffer = do
  action_id ← byte 0 buffer
  action_ctrl ← byte 1 buffer
  freq ← byte 1 buffer
  id ← byte 2 buffer
  mode ← byte 3 buffer
  mask ← byte 4 buffer
  x ← read_at 4 5 buffer
  y ← read_at 4 9 buffer
  z ← read_at 4 13 buffer
  some (record {
    request = request;
    action_id = action_id;
    action_ctrl = bit_and action_ctrl 0x3;
    freq = freq / 2 ^ 2;
    id = id;
    mode = mode;
    mask = mask;
    x = signed 32 x;
    y = signed 32 y;
    z = signed 32 z;
  })

pub record RoboticArmGetPostion : Type 0 where
  pub request : RequestT
  pub id : ℕ

unfoldable pub read_robotic_arm_get_postion : RequestT → List ℕ → Option RoboticArmGetPostion
read_robotic_arm_get_postion request buffer = do
  id ← byte 0 buffer
  some (record { request = request; id = id })

pub record ServoGetAngle : Type 0 where
  pub request : RequestT
  pub id : ℕ

unfoldable pub read_servo_get_angle : RequestT → List ℕ → Option ServoGetAngle
read_servo_get_angle request buffer = do
  id ← byte 0 buffer
  some (record { request = request; id = id / 2 ^ 5 })

pub record ServoModeSet : Type 0 where
  pub request : RequestT
  pub id : ℕ
  pub mode : ℕ

unfoldable pub read_servo_mode_set : RequestT → List ℕ → Option ServoModeSet
read_servo_mode_set request buffer = do
  id ← byte 0 buffer
  mode ← byte 1 buffer
  some (record { request = request; id = id / 2 ^ 5; mode = mode })

pub record ServoControl : Type 0 where
  pub request : RequestT
  pub id : ℕ
  pub enable : ℕ
  pub value : ℕ

unfoldable pub read_servo_control : RequestT → List ℕ → Option ServoControl
read_servo_control request buffer = do
  id ← byte 0 buffer
  enable ← byte 1 buffer
  value ← read_at 2 2 buffer
  some (record { request = request; id = id / 2 ^ 5; enable = enable; value = value })

pub record ServoCtrlSet : Type 0 where
  pub request : RequestT
  pub action_id : ℕ
  pub action_ctrl : ℕ
  pub freq : ℕ
  pub servo_id : ℕ
  pub value : ℤ

unfoldable pub read_servo_ctrl_set : RequestT → List ℕ → Option ServoCtrlSet
read_servo_ctrl_set request buffer = do
  action_id ← byte 0 buffer
  action_ctrl ← byte 1 buffer
  freq ← byte 1 buffer
  servo_id ← byte 2 buffer
  value ← read_at 4 3 buffer
  some (record {
    request = request;
    action_id = action_id;
    action_ctrl = bit_and action_ctrl 0x3;
    freq = freq / 2 ^ 2;
    servo_id = servo_id / 2 ^ 5;
    value = signed 32 value;
  })
