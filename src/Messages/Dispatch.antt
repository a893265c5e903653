-- ===== src/Messages/Dispatch.antt =====
-- The dispatch table of robomaster_sim/src/command.cpp, and how many bytes its requests need.
use msde_robotics.Prelude.{
  ℕ, ◌≤◌, ◌≡◌, ◌≢◌, refl, List, [], ◌∷◌, Option, none, some, ◌==◌, if◌then◌else◌, arith, length,
  All, ◌⊎◌, inl, inr, Option-cases, ℕ_discrete, ◌∙◌, subst,
}
use msde_robotics.Wire.Bytes.{key_from}
use msde_robotics.Wire.Frame.{RequestT}
use msde_robotics.Messages.Registry.{
  Request, Parser, parsed, registered, find_callback, set_sdk_mode, set_robot_mode, sub_node_reset,
  subscribe_add_node, vision_detect_enable, chassis_speed_mode, del_msg, get_product_version,
  get_sn, set_system_led, play_sound, position_move, set_wheel_speed, chassis_pwm_percent,
  chassis_pwm_freq, gripper_ctrl, robotic_arm_move_ctrl, stream_ctrl, set_armor_param,
  vision_set_color, sensor_get_data, chassis_serial_set, chassis_serial_msg_send, servo_get_angle,
  servo_mode_set, servo_control, servo_ctrl_set, gimbal_set_work_mode, gimbal_ctrl_speed,
  gimbal_ctrl, gimbal_rotate, gimbal_recenter, blaster_fire, blaster_set_led, chassis_set_work_mode,
  robotic_arm_get_postion, take_photo, set_white_balance, set_zoom,
}
use msde_robotics.Messages.InBounds.{
  read_set_sdk_mode_in_bounds, read_set_robot_mode_in_bounds, read_sub_node_reset_in_bounds,
  read_subscribe_add_node_in_bounds, read_vision_detect_enable_in_bounds,
  read_chassis_speed_mode_in_bounds, read_del_msg_in_bounds, read_get_product_version_in_bounds,
  read_get_sn_in_bounds, read_play_sound_in_bounds, read_position_move_in_bounds,
  read_set_wheel_speed_in_bounds, read_chassis_pwm_percent_in_bounds,
  read_chassis_pwm_freq_in_bounds, read_stream_ctrl_in_bounds, read_vision_set_color_in_bounds,
  read_chassis_serial_set_in_bounds, read_chassis_serial_msg_send_in_bounds,
  read_chassis_set_work_mode_in_bounds, read_take_photo_in_bounds, read_set_white_balance_in_bounds,
  read_set_zoom_in_bounds,
}
use msde_robotics.Messages.InBounds.Devices.{
  read_set_system_led_in_bounds, read_gripper_ctrl_in_bounds, read_robotic_arm_move_ctrl_in_bounds,
  read_set_armor_param_in_bounds, read_sensor_get_data_in_bounds, read_servo_get_angle_in_bounds,
  read_servo_mode_set_in_bounds, read_servo_control_in_bounds, read_servo_ctrl_set_in_bounds,
  read_gimbal_set_work_mode_in_bounds, read_gimbal_ctrl_speed_in_bounds, read_gimbal_ctrl_in_bounds,
  read_gimbal_rotate_in_bounds, read_gimbal_recenter_in_bounds, read_blaster_fire_in_bounds,
  read_blaster_set_led_in_bounds, read_robotic_arm_get_postion_in_bounds,
}
use msde_robotics.Messages.System.{
  read_sdk_heart_beat, read_set_sdk_mode, read_set_robot_mode, read_get_robot_mode,
  read_sub_node_reset, read_subscribe_add_node, read_get_version_rm, read_get_product_version,
  read_get_sn, read_play_sound,
}
use msde_robotics.Messages.Vision.{
  read_vision_detect_enable, read_stream_ctrl, read_vision_detect_status, read_vision_set_color,
  read_get_zoom, read_take_photo, read_set_white_balance, read_set_zoom,
}
use msde_robotics.Messages.Chassis.{
  read_chassis_speed_mode, read_position_move, read_set_wheel_speed, read_chassis_pwm_percent,
  read_chassis_pwm_freq, read_chassis_serial_set, read_chassis_set_work_mode,
}
use msde_robotics.Messages.Subscriber.{read_del_msg, read_chassis_serial_msg_send}
use msde_robotics.Messages.Light.{read_set_system_led, read_blaster_fire, read_blaster_set_led}
use msde_robotics.Messages.Arm.{
  read_gripper_ctrl, read_robotic_arm_move_ctrl, read_servo_get_angle, read_servo_mode_set,
  read_servo_control, read_servo_ctrl_set, read_robotic_arm_get_postion,
}
use msde_robotics.Messages.Sensor.{read_set_armor_param, read_sensor_get_data}
use msde_robotics.Messages.Gimbal.{
  read_gimbal_set_work_mode, read_gimbal_ctrl_speed, read_gimbal_ctrl, read_gimbal_rotate,
  read_gimbal_recenter,
}

-- A proof for the first entry of a list, and one for the others.
infixr 2 ◌and◌
abbrev ◌and◌ {ℓ κ} : {P : Type ℓ} {Q : Type κ} → P → Q → P × Q
p and q = (p, q)

some≢none : {A : Type 0} {a : A} → some a ≢ none
some≢none e = absurd (cc e)

found_here {ℓ κ} :
    {A : Type ℓ} (P : ℕ → A → Type κ) (key k : ℕ) (g h : A)
    → (if k == key then some g else none) ≡ some h
    → P k g
    → P key h
found_here P key k g h q p = elim (ℕ_discrete k key) [
  | yes same ↦
      let here : g ≡ h = ground arith in subst (λ n. P n h) same (subst (λ x. P k x) here p)
  | no other ↦ absurd (ground arith)
]

-- What holds of every registered entry holds of the one that is found.
find_callback-All {ℓ κ} :
    {A : Type ℓ} (P : ℕ → A → Type κ) (key : ℕ) (entries : List (ℕ × A)) (h : A)
    → find_callback key entries ≡ some h
    → All (λ entry. P entry.0 entry.1) entries
    → P key h
unfolding find_callback
find_callback-All P key [] h e all = absurd (cc e)
find_callback-All P key ((k, g) ∷ rest) h e all = elim (Option-cases (find_callback key rest)) [
  | inl missing ↦ found_here P key k g h (rw missing at e) all.0
  | inr (last, found) ↦ find_callback-All P key rest h (found ∙ rw found at e) all.1
]

-- Every registered message is found under the key it was registered with: no two of the 45
-- messages have the same key.
pub find_callback-registered :
    All (λ entry. find_callback entry.0 registered ≡ some entry.1) registered
unfolding find_callback registered key_from
find_callback-registered =
    refl and refl and refl and refl and refl and refl and refl and refl and refl and refl and refl
    and refl and refl and refl and refl and refl and refl and refl and refl and refl and refl
    and refl and refl and refl and refl and refl and refl and refl and refl and refl and refl
    and refl and refl and refl and refl and refl and refl and refl and refl and refl and refl
    and refl and refl and refl and refl and tt

parsed_some :
    {A : Type 0} (make : A → Request) (read : RequestT → List ℕ → Option A) (request : RequestT)
    (buffer : List ℕ)
    → read request buffer ≢ none
    → parsed make read request buffer ≢ none
parsed_some make read request buffer ok e = elim (Option-cases (read request buffer)) [
  | inl missing ↦ ok missing
  | inr (a, found) ↦ some≢none (rw found at e)
]

registered_in_bounds :
    (request : RequestT) (buffer : List ℕ)
    → 19 ≤ length buffer
    → All (λ entry. (entry.0 ≡ key_from 0x48 0x03) ⊎ (entry.1 request buffer ≢ none)) registered
unfolding registered read_get_robot_mode read_get_version_rm read_get_zoom read_sdk_heart_beat
    read_vision_detect_status
registered_in_bounds request buffer long =
    inr (λ e. some≢none e)
    and reads set_sdk_mode read_set_sdk_mode (read_set_sdk_mode_in_bounds request buffer long)
    and reads set_robot_mode read_set_robot_mode (read_set_robot_mode_in_bounds request buffer long)
    and inr (λ e. some≢none e)
    and reads sub_node_reset read_sub_node_reset (read_sub_node_reset_in_bounds request buffer long)
    and reads subscribe_add_node read_subscribe_add_node
        (read_subscribe_add_node_in_bounds request buffer long)
    and reads vision_detect_enable read_vision_detect_enable
        (read_vision_detect_enable_in_bounds request buffer long)
    and reads chassis_speed_mode read_chassis_speed_mode
        (read_chassis_speed_mode_in_bounds request buffer long)
    and inl refl
    and reads del_msg read_del_msg (read_del_msg_in_bounds request buffer long)
    and inr (λ e. some≢none e)
    and reads get_product_version read_get_product_version
        (read_get_product_version_in_bounds request buffer long)
    and reads get_sn read_get_sn (read_get_sn_in_bounds request buffer long)
    and reads set_system_led read_set_system_led (read_set_system_led_in_bounds request buffer long)
    and reads play_sound read_play_sound (read_play_sound_in_bounds request buffer long)
    and reads position_move read_position_move (read_position_move_in_bounds request buffer long)
    and reads set_wheel_speed read_set_wheel_speed
        (read_set_wheel_speed_in_bounds request buffer long)
    and reads chassis_pwm_percent read_chassis_pwm_percent
        (read_chassis_pwm_percent_in_bounds request buffer long)
    and reads chassis_pwm_freq read_chassis_pwm_freq
        (read_chassis_pwm_freq_in_bounds request buffer long)
    and reads gripper_ctrl read_gripper_ctrl (read_gripper_ctrl_in_bounds request buffer long)
    and reads robotic_arm_move_ctrl read_robotic_arm_move_ctrl
        (read_robotic_arm_move_ctrl_in_bounds request buffer long)
    and reads stream_ctrl read_stream_ctrl (read_stream_ctrl_in_bounds request buffer long)
    and inr (λ e. some≢none e)
    and reads set_armor_param read_set_armor_param
        (read_set_armor_param_in_bounds request buffer long)
    and reads vision_set_color read_vision_set_color
        (read_vision_set_color_in_bounds request buffer long)
    and reads sensor_get_data read_sensor_get_data
        (read_sensor_get_data_in_bounds request buffer long)
    and reads chassis_serial_set read_chassis_serial_set
        (read_chassis_serial_set_in_bounds request buffer long)
    and reads chassis_serial_msg_send read_chassis_serial_msg_send
        (read_chassis_serial_msg_send_in_bounds request buffer long)
    and reads servo_get_angle read_servo_get_angle
        (read_servo_get_angle_in_bounds request buffer long)
    and reads servo_mode_set read_servo_mode_set (read_servo_mode_set_in_bounds request buffer long)
    and reads servo_control read_servo_control (read_servo_control_in_bounds request buffer long)
    and reads servo_ctrl_set read_servo_ctrl_set (read_servo_ctrl_set_in_bounds request buffer long)
    and reads gimbal_set_work_mode read_gimbal_set_work_mode
        (read_gimbal_set_work_mode_in_bounds request buffer long)
    and reads gimbal_ctrl_speed read_gimbal_ctrl_speed
        (read_gimbal_ctrl_speed_in_bounds request buffer long)
    and reads gimbal_ctrl read_gimbal_ctrl (read_gimbal_ctrl_in_bounds request buffer long)
    and reads gimbal_rotate read_gimbal_rotate (read_gimbal_rotate_in_bounds request buffer long)
    and reads gimbal_recenter read_gimbal_recenter
        (read_gimbal_recenter_in_bounds request buffer long)
    and reads blaster_fire read_blaster_fire (read_blaster_fire_in_bounds request buffer long)
    and reads blaster_set_led read_blaster_set_led
        (read_blaster_set_led_in_bounds request buffer long)
    and reads chassis_set_work_mode read_chassis_set_work_mode
        (read_chassis_set_work_mode_in_bounds request buffer long)
    and reads robotic_arm_get_postion read_robotic_arm_get_postion
        (read_robotic_arm_get_postion_in_bounds request buffer long)
    and inr (λ e. some≢none e)
    and reads take_photo read_take_photo (read_take_photo_in_bounds request buffer long)
    and reads set_white_balance read_set_white_balance
        (read_set_white_balance_in_bounds request buffer long)
    and reads set_zoom read_set_zoom (read_set_zoom_in_bounds request buffer long)
    and tt
  where
    reads :
        {A : Type 0} {k : ℕ} (make : A → Request) (read : RequestT → List ℕ → Option A)
        → read request buffer ≢ none
        → (k ≡ key_from 0x48 0x03) ⊎ (parsed make read request buffer ≢ none)
    reads make read ok = inr (parsed_some make read request buffer ok)

-- The parser of every key but that of AddSubMsg reads its request from a buffer of at least 19
-- bytes without an access outside of it.
pub callback_in_bounds :
    (key : ℕ) (parse : Parser) (request : RequestT) (buffer : List ℕ)
    → 19 ≤ length buffer
    → find_callback key registered ≡ some parse
    → key ≢ key_from 0x48 0x03
    → parse request buffer ≢ none
callback_in_bounds key parse request buffer long found other =
    elim (find_callback-All (λ k h. (k ≡ key_from 0x48 0x03) ⊎ (h request buffer ≢ none)) key
      registered parse found (registered_in_bounds request buffer long)) [
        | inl same ↦ absurd (other same)
        | inr ok ↦ ok
      ]
