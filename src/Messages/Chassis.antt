-- ===== src/Messages/Chassis.antt =====
-- robomaster_sim/include/command_messages.hpp: the requests of the chassis and its ports.
use msde_robotics.Prelude.{ℕ, List, Option, some, ◌/◌, ◌^◌, bit_and}
use msde_robotics.Prelude.Int.{ℤ, signed}
use msde_robotics.Wire.Bytes.{◌>>=◌, byte, read_at, negated_16, Float}
use msde_robotics.Wire.Frame.{RequestT}

pub record SetWheelSpeed : Type 0 where
  pub request : RequestT
  pub w1_speed : ℤ
  pub w2_speed : ℤ
  pub w3_speed : ℤ
  pub w4_speed : ℤ

unfoldable pub read_set_wheel_speed : RequestT → List ℕ → Option SetWheelSpeed
read_set_wheel_speed request buffer = do
  w1_speed ← read_at 2 0 buffer
  w2_speed ← read_at 2 2 buffer
  w3_speed ← read_at 2 4 buffer
  w4_speed ← read_at 2 6 buffer
  some (record {
    request = request;
    w1_speed = signed 16 w1_speed;
    w2_speed = negated_16 (signed 16 w2_speed);
    w3_speed = negated_16 (signed 16 w3_speed);
    w4_speed = signed 16 w4_speed;
  })

pub record PositionMove : Type 0 where
  pub request : RequestT
  pub action_id : ℕ
  pub action_ctrl : ℕ
  pub freq : ℕ
  pub ctrl_mode : ℕ
  pub axis_mode : ℕ
  pub pos_x : ℤ
  pub pos_y : ℤ
  pub pos_z : ℤ
  pub vel_xy_max : ℕ
  pub agl_omg_max : ℤ

unfoldable pub read_position_move : RequestT → List ℕ → Option PositionMove
read_position_move request buffer = do
  action_id ← byte 0 buffer
  action_ctrl ← byte 1 buffer
  freq ← byte 1 buffer
  ctrl_mode ← byte 2 buffer
  axis_mode ← byte 3 buffer
  pos_x ← read_at 2 4 buffer
  pos_y ← read_at 2 6 buffer
  pos_z ← read_at 2 8 buffer
  vel_xy_max ← byte 10 buffer
  agl_omg_max ← read_at 2 11 buffer
  some (record {
    request = request;
    action_id = action_id;
    action_ctrl = bit_and action_ctrl 0x3;
    freq = freq / 2 ^ 2;
    ctrl_mode = ctrl_mode;
    axis_mode = axis_mode;
    pos_x = signed 16 pos_x;
    pos_y = signed 16 pos_y;
    pos_z = signed 16 pos_z;
    vel_xy_max = vel_xy_max;
    agl_omg_max = signed 16 agl_omg_max;
  })

pub record ChassisPwmPercent : Type 0 where
  pub request : RequestT
  pub mask : ℕ
  pub pwm_1 : ℤ
  pub pwm_2 : ℤ
  pub pwm_3 : ℤ
  pub pwm_4 : ℤ
  pub pwm_5 : ℤ
  pub pwm_6 : ℤ

unfoldable pub read_chassis_pwm_percent : RequestT → List ℕ → Option ChassisPwmPercent
read_chassis_pwm_percent request buffer = do
  mask ← byte 0 buffer
  pwm_1 ← read_at 2 1 buffer
  pwm_2 ← read_at 2 3 buffer
  pwm_3 ← read_at 2 5 buffer
  pwm_4 ← read_at 2 7 buffer
  pwm_5 ← read_at 2 9 buffer
  pwm_6 ← read_at 2 11 buffer
  some (record {
    request = request;
    mask = mask;
    pwm_1 = signed 16 pwm_1;
    pwm_2 = signed 16 pwm_2;
    pwm_3 = signed 16 pwm_3;
    pwm_4 = signed 16 pwm_4;
    pwm_5 = signed 16 pwm_5;
    pwm_6 = signed 16 pwm_6;
  })

pub record ChassisPwmFreq : Type 0 where
  pub request : RequestT
  pub mask : ℕ
  pub pwm_1 : ℕ
  pub pwm_2 : ℕ
  pub pwm_3 : ℕ
  pub pwm_4 : ℕ
  pub pwm_5 : ℕ
  pub pwm_6 : ℕ

unfoldable pub read_chassis_pwm_freq : RequestT → List ℕ → Option ChassisPwmFreq
read_chassis_pwm_freq request buffer = do
  mask ← byte 0 buffer
  pwm_1 ← read_at 2 1 buffer
  pwm_2 ← read_at 2 3 buffer
  pwm_3 ← read_at 2 5 buffer
  pwm_4 ← read_at 2 7 buffer
  pwm_5 ← read_at 2 9 buffer
  pwm_6 ← read_at 2 11 buffer
  some (record {
    request = request;
    mask = mask;
    pwm_1 = pwm_1;
    pwm_2 = pwm_2;
    pwm_3 = pwm_3;
    pwm_4 = pwm_4;
    pwm_5 = pwm_5;
    pwm_6 = pwm_6;
  })

pub record ChassisSpeedMode : Type 0 where
  pub request : RequestT
  pub x_spd : Float
  pub y_spd : Float
  pub z_spd : Float

unfoldable pub read_chassis_speed_mode : RequestT → List ℕ → Option ChassisSpeedMode
read_chassis_speed_mode request buffer = do
  x_spd ← read_at 4 0 buffer
  y_spd ← read_at 4 4 buffer
  z_spd ← read_at 4 8 buffer
  some (record { request = request; x_spd = x_spd; y_spd = y_spd; z_spd = z_spd })

pub record ChassisSetWorkMode : Type 0 where
  pub request : RequestT
  pub mode : ℕ

unfoldable pub read_chassis_set_work_mode : RequestT → List ℕ → Option ChassisSetWorkMode
read_chassis_set_work_mode request buffer = do
  mode ← byte 0 buffer
  some (record { request = request; mode = mode })

pub record ChassisSerialSet : Type 0 where
  pub request : RequestT
  pub stop_bit : ℕ
  pub odd_even : ℕ
  pub data_bit : ℕ
  pub baud_rate : ℕ
  pub tx_en : ℕ
  pub rx_en : ℕ
  pub rx_size : ℕ
  pub tx_size : ℕ

unfoldable pub read_chassis_serial_set : RequestT → List ℕ → Option ChassisSerialSet
read_chassis_serial_set request buffer = do
  stop_bit ← byte 0 buffer
  odd_even ← byte 0 buffer
  data_bit ← byte 0 buffer
  baud_rate ← byte 0 buffer
  tx_en ← byte 1 buffer
  rx_en ← byte 1 buffer
  rx_size ← read_at 2 2 buffer
  tx_size ← read_at 2 4 buffer
  some (record {
    request = request;
    stop_bit = bit_and (stop_bit / 2 ^ 7) 0x1;
    odd_even = bit_and (odd_even / 2 ^ 5) 0x3;
    data_bit = bit_and (data_bit / 2 ^ 3) 0x3;
    baud_rate = bit_and baud_rate 0x7;
    tx_en = bit_and (tx_en / 2 ^ 1) 1;
    rx_en = bit_and rx_en 1;
    rx_size = rx_size;
    tx_size = tx_size;
  })
