-- ===== src/Messages/InBounds.antt =====
-- How many bytes the requests of fixed size need.
pub mod Devices
use msde_robotics.Prelude.{
  ℕ, zero, suc, ◌+◌, ◌*◌, ◌≤◌, ◌<◌, ◌≡◌, ◌≢◌, refl, List, [], ◌∷◌, none, some, arith, length, drop,
  length-drop,
}
use msde_robotics.Wire.Bytes.{byte, read, read_at}
use msde_robotics.Wire.Frame.{RequestT}
use msde_robotics.Messages.System.{
  read_set_sdk_mode, read_set_robot_mode, read_sub_node_reset, read_subscribe_add_node,
  read_get_product_version, read_get_sn, read_play_sound,
}
use msde_robotics.Messages.Vision.{
  read_vision_detect_enable, read_stream_ctrl, read_vision_set_color, read_take_photo,
  read_set_white_balance, read_set_zoom,
}
use msde_robotics.Messages.Chassis.{
  read_chassis_speed_mode, read_position_move, read_set_wheel_speed, read_chassis_pwm_percent,
  read_chassis_pwm_freq, read_chassis_serial_set, read_chassis_set_work_mode,
}
use msde_robotics.Messages.Subscriber.{read_del_msg, read_chassis_serial_msg_send}

pub byte-some : (i : ℕ) (buffer : List ℕ) → i < length buffer → (x : ℕ) × (byte i buffer ≡ some x)
byte-some i [] h = absurd (omega arith)
byte-some zero (x ∷ xs) h = (x, refl)
byte-some (suc i) (x ∷ xs) h = byte-some i xs (omega arith)

pub read-some : (n : ℕ) (buffer : List ℕ) → n ≤ length buffer → (x : ℕ) × (read n buffer ≡ some x)
unfolding read
read-some zero buffer h = (0, refl)
read-some (suc n) [] h = absurd (omega arith)
read-some (suc n) (b ∷ rest) h =
    let (high, e) = read-some n rest (omega arith) in (b + 256 * high, rw e)

pub read_at-some :
    (n i : ℕ) (buffer : List ℕ) → n + i ≤ length buffer → (x : ℕ) × (read_at n i buffer ≡ some x)
read_at-some n i buffer h = read-some n (drop i buffer) (omega (arith, length-drop i buffer))

module _ (request : RequestT) (buffer : List ℕ) (long : 19 ≤ length buffer) where
  pub read_set_sdk_mode_in_bounds : read_set_sdk_mode request buffer ≢ none
  unfolding read_set_sdk_mode
  read_set_sdk_mode_in_bounds e = ground (arith, byte-some 0 buffer (omega arith))

  pub read_set_robot_mode_in_bounds : read_set_robot_mode request buffer ≢ none
  unfolding read_set_robot_mode
  read_set_robot_mode_in_bounds e = ground (arith, byte-some 0 buffer (omega arith))

  pub read_sub_node_reset_in_bounds : read_sub_node_reset request buffer ≢ none
  unfolding read_sub_node_reset
  read_sub_node_reset_in_bounds e = ground (arith, byte-some 0 buffer (omega arith))

  pub read_subscribe_add_node_in_bounds : read_subscribe_add_node request buffer ≢ none
  unfolding read_subscribe_add_node
  read_subscribe_add_node_in_bounds e =
      ground (arith, byte-some 0 buffer (omega arith), read_at-some 4 1 buffer (omega arith))

  pub read_vision_detect_enable_in_bounds : read_vision_detect_enable request buffer ≢ none
  unfolding read_vision_detect_enable
  read_vision_detect_enable_in_bounds e = ground (arith, read_at-some 2 0 buffer (omega arith))

  pub read_chassis_speed_mode_in_bounds : read_chassis_speed_mode request buffer ≢ none
  unfolding read_chassis_speed_mode
  read_chassis_speed_mode_in_bounds e = ground (
    arith,
    read_at-some 4 0 buffer (omega arith),
    read_at-some 4 4 buffer (omega arith),
    read_at-some 4 8 buffer (omega arith),
  )

  pub read_del_msg_in_bounds : read_del_msg request buffer ≢ none
  unfolding read_del_msg
  read_del_msg_in_bounds e = ground (
    arith,
    byte-some 0 buffer (omega arith),
    byte-some 1 buffer (omega arith),
    byte-some 2 buffer (omega arith),
  )

  pub read_get_product_version_in_bounds : read_get_product_version request buffer ≢ none
  unfolding read_get_product_version
  read_get_product_version_in_bounds e = ground (arith, byte-some 0 buffer (omega arith))

  pub read_get_sn_in_bounds : read_get_sn request buffer ≢ none
  unfolding read_get_sn
  read_get_sn_in_bounds e = ground (arith, byte-some 0 buffer (omega arith))

  pub read_play_sound_in_bounds : read_play_sound request buffer ≢ none
  unfolding read_play_sound
  read_play_sound_in_bounds e = ground (
    arith,
    byte-some 0 buffer (omega arith),
    byte-some 1 buffer (omega arith),
    byte-some 6 buffer (omega arith),
    byte-some 9 buffer (omega arith),
    read_at-some 4 2 buffer (omega arith),
    read_at-some 2 7 buffer (omega arith),
  )

  pub read_position_move_in_bounds : read_position_move request buffer ≢ none
  unfolding read_position_move
  read_position_move_in_bounds e = ground (
    arith,
    byte-some 0 buffer (omega arith),
    byte-some 1 buffer (omega arith),
    byte-some 2 buffer (omega arith),
    byte-some 3 buffer (omega arith),
    byte-some 10 buffer (omega arith),
    read_at-some 2 4 buffer (omega arith),
    read_at-some 2 6 buffer (omega arith),
    read_at-some 2 8 buffer (omega arith),
    read_at-some 2 11 buffer (omega arith),
  )

  pub read_set_wheel_speed_in_bounds : read_set_wheel_speed request buffer ≢ none
  unfolding read_set_wheel_speed
  read_set_wheel_speed_in_bounds e = ground (
    arith,
    read_at-some 2 0 buffer (omega arith),
    read_at-some 2 2 buffer (omega arith),
    read_at-some 2 4 buffer (omega arith),
    read_at-some 2 6 buffer (omega arith),
  )

  pub read_chassis_pwm_percent_in_bounds : read_chassis_pwm_percent request buffer ≢ none
  unfolding read_chassis_pwm_percent
  read_chassis_pwm_percent_in_bounds e = ground (
    arith,
    byte-some 0 buffer (omega arith),
    read_at-some 2 1 buffer (omega arith),
    read_at-some 2 3 buffer (omega arith),
    read_at-some 2 5 buffer (omega arith),
    read_at-some 2 7 buffer (omega arith),
    read_at-some 2 9 buffer (omega arith),
    read_at-some 2 11 buffer (omega arith),
  )

  pub read_chassis_pwm_freq_in_bounds : read_chassis_pwm_freq request buffer ≢ none
  unfolding read_chassis_pwm_freq
  read_chassis_pwm_freq_in_bounds e = ground (
    arith,
    byte-some 0 buffer (omega arith),
    read_at-some 2 1 buffer (omega arith),
    read_at-some 2 3 buffer (omega arith),
    read_at-some 2 5 buffer (omega arith),
    read_at-some 2 7 buffer (omega arith),
    read_at-some 2 9 buffer (omega arith),
    read_at-some 2 11 buffer (omega arith),
  )

  pub read_stream_ctrl_in_bounds : read_stream_ctrl request buffer ≢ none
  unfolding read_stream_ctrl
  read_stream_ctrl_in_bounds e = ground (
    arith,
    byte-some 0 buffer (omega arith),
    byte-some 1 buffer (omega arith),
    byte-some 2 buffer (omega arith),
  )

  pub read_vision_set_color_in_bounds : read_vision_set_color request buffer ≢ none
  unfolding read_vision_set_color
  read_vision_set_color_in_bounds e =
      ground (arith, byte-some 0 buffer (omega arith), byte-some 1 buffer (omega arith))

  pub read_chassis_serial_set_in_bounds : read_chassis_serial_set request buffer ≢ none
  unfolding read_chassis_serial_set
  read_chassis_serial_set_in_bounds e = ground (
    arith,
    byte-some 0 buffer (omega arith),
    byte-some 1 buffer (omega arith),
    read_at-some 2 2 buffer (omega arith),
    read_at-some 2 4 buffer (omega arith),
  )

  pub read_chassis_serial_msg_send_in_bounds : read_chassis_serial_msg_send request buffer ≢ none
  unfolding read_chassis_serial_msg_send
  read_chassis_serial_msg_send_in_bounds e =
      ground (arith, byte-some 0 buffer (omega arith), read_at-some 2 1 buffer (omega arith))

  pub read_chassis_set_work_mode_in_bounds : read_chassis_set_work_mode request buffer ≢ none
  unfolding read_chassis_set_work_mode
  read_chassis_set_work_mode_in_bounds e = ground (arith, byte-some 0 buffer (omega arith))

  pub read_take_photo_in_bounds : read_take_photo request buffer ≢ none
  unfolding read_take_photo
  read_take_photo_in_bounds e = ground (arith, byte-some 0 buffer (omega arith))

  pub read_set_white_balance_in_bounds : read_set_white_balance request buffer ≢ none
  unfolding read_set_white_balance
  read_set_white_balance_in_bounds e = ground (
    arith,
    byte-some 0 buffer (omega arith),
    byte-some 1 buffer (omega arith),
    byte-some 2 buffer (omega arith),
    read_at-some 2 3 buffer (omega arith),
  )

  pub read_set_zoom_in_bounds : read_set_zoom request buffer ≢ none
  unfolding read_set_zoom
  read_set_zoom_in_bounds e =
      ground (arith, byte-some 0 buffer (omega arith), read_at-some 2 4 buffer (omega arith))
