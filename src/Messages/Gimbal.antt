-- ===== src/Messages/Gimbal.antt =====
-- robomaster_sim/include/command_messages.hpp: the requests of the gimbal.
use msde_robotics.Prelude.{ℕ, List, Option, some, ◌/◌, ◌^◌, bit_and}
use msde_robotics.Prelude.Int.{ℤ, signed}
use msde_robotics.Wire.Bytes.{◌>>=◌, byte, read_at}
use msde_robotics.Wire.Frame.{RequestT}

pub record GimbalCtrlSpeed : Type 0 where
  pub request : RequestT
  pub yaw_speed : ℤ
  pub roll_speed : ℤ
  pub pitch_speed : ℤ
  pub ctrl_byte : ℕ

unfoldable pub read_gimbal_ctrl_speed : RequestT → List ℕ → Option GimbalCtrlSpeed
read_gimbal_ctrl_speed request buffer = do
  yaw_speed ← read_at 2 0 buffer
  roll_speed ← read_at 2 2 buffer
  pitch_speed ← read_at 2 4 buffer
  ctrl_byte ← byte 6 buffer
  some (record {
    request = request;
    yaw_speed = signed 16 yaw_speed;
    roll_speed = signed 16 roll_speed;
    pitch_speed = signed 16 pitch_speed;
    ctrl_byte = ctrl_byte;
  })

pub record GimbalSetWorkMode : Type 0 where
  pub request : RequestT
  pub workmode : ℕ
  pub recenter : ℕ

unfoldable pub read_gimbal_set_work_mode : RequestT → List ℕ → Option GimbalSetWorkMode
read_gimbal_set_work_mode request buffer = do
  workmode ← byte 0 buffer
  recenter ← byte 1 buffer
  some (record { request = request; workmode = workmode; recenter = recenter })

pub record GimbalCtrl : Type 0 where
  pub request : RequestT
  pub order_code : ℕ

unfoldable pub read_gimbal_ctrl : RequestT → List ℕ → Option GimbalCtrl
read_gimbal_ctrl request buffer = do
  order_code ← read_at 2 0 buffer
  some (record { request = request; order_code = order_code })

pub record GimbalRotate : Type 0 where
  pub request : RequestT
  pub action_id : ℕ
  pub action_ctrl : ℕ
  pub freq : ℕ
  pub yaw_valid : ℕ
  pub roll_valid : ℕ
  pub pitch_valid : ℕ
  pub coordinate : ℕ
  pub yaw : ℤ
  pub roll : ℤ
  pub pitch : ℤ
  pub error : ℕ
  pub yaw_speed : ℕ
  pub roll_speed : ℕ
  pub pitch_speed : ℕ

unfoldable pub read_gimbal_rotate : RequestT → List ℕ → Option GimbalRotate
read_gimbal_rotate request buffer = do
  action_id ← byte 0 buffer
  action_ctrl ← byte 1 buffer
  freq ← byte 1 buffer
  yaw_valid ← byte 2 buffer
  roll_valid ← byte 2 buffer
  pitch_valid ← byte 2 buffer
  coordinate ← byte 2 buffer
  yaw ← read_at 2 3 buffer
  roll ← read_at 2 5 buffer
  pitch ← read_at 2 7 buffer
  error ← read_at 2 9 buffer
  yaw_speed ← read_at 2 11 buffer
  roll_speed ← read_at 2 13 buffer
  pitch_speed ← read_at 2 15 buffer
  some (record {
    request = request;
    action_id = action_id;
    action_ctrl = bit_and action_ctrl 0x3;
    freq = freq / 2 ^ 2;
    yaw_valid = bit_and yaw_valid 0x1;
    roll_valid = bit_and (roll_valid / 2 ^ 1) 0x1;
    pitch_valid = bit_and (pitch_valid / 2 ^ 2) 0x1;
    coordinate = coordinate / 2 ^ 3;
    yaw = signed 16 yaw;
    roll = signed 16 roll;
    pitch = signed 16 pitch;
    error = error;
    yaw_speed = yaw_speed;
    roll_speed = roll_speed;
    pitch_speed = pitch_speed;
  })

pub record GimbalRecenter : Type 0 where
  pub request : RequestT
  pub action_id : ℕ
  pub action_ctrl : ℕ
  pub freq : ℕ
  pub yaw_valid : ℕ
  pub roll_valid : ℕ
  pub pitch_valid : ℕ
  pub yaw_speed : ℕ
  pub roll_speed : ℕ
  pub pitch_speed : ℕ

unfoldable pub read_gimbal_recenter : RequestT → List ℕ → Option GimbalRecenter
read_gimbal_recenter request buffer = do
  action_id ← byte 0 buffer
  action_ctrl ← byte 1 buffer
  freq ← byte 1 buffer
  yaw_valid ← byte 2 buffer
  roll_valid ← byte 2 buffer
  pitch_valid ← byte 2 buffer
  yaw_speed ← read_at 2 3 buffer
  roll_speed ← read_at 2 5 buffer
  pitch_speed ← read_at 2 7 buffer
  some (record {
    request = request;
    action_id = action_id;
    action_ctrl = bit_and action_ctrl 0x3;
    freq = freq / 2 ^ 2;
    yaw_valid = bit_and yaw_valid 0x1;
    roll_valid = bit_and (roll_valid / 2 ^ 1) 0x1;
    pitch_valid = bit_and (pitch_valid / 2 ^ 2) 0x1;
    yaw_speed = yaw_speed;
    roll_speed = roll_speed;
    pitch_speed = pitch_speed;
  })
