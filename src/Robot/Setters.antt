-- ===== src/Robot/Setters.antt =====
-- robomaster_sim/include/robot/robot.hpp and src/robot/robot.cpp: the operations of `Robot` that the
-- servers call.
use msde_robotics.Prelude.{
  ℕ, List, [], ◌∷◌, Bool, true, false, not, ◌==◌, if◌then◌else◌, bit_and, get_elem?, Option, none,
  some,
}
use msde_robotics.Wire.Bytes.{Float}
use msde_robotics.Robot.Platform.{zero_f, one_f}
use msde_robotics.Robot.Maths.{Math}
use msde_robotics.Robot.Geometry.{Pose2D, GimbalValues}
use msde_robotics.Robot.Action.{State, Action}
use msde_robotics.Robot.Schedule.{
  Schedule, submit_move, submit_move_arm, submit_play_sound, submit_move_servo, submit_move_gimbal,
}
use msde_robotics.Robot.Sound.{play_sound_action}
use msde_robotics.Robot.Devices.{set_enable_tof}
use msde_robotics.Robot.Lights.{Color, update_active, update_composite}
use msde_robotics.Robot.Servos.{ServoMode, angle, differ_bool}
use msde_robotics.Robot.Gimbals.{Frame, follow_chassis}
use msde_robotics.Robot.Wheels.{stop}
use msde_robotics.Robot.Machine.{chassis_lead, Robot, Output, engage_motors, update_servo}
use msde_robotics.Robot.Tasks.{
  Task, move_base, move_arm, play_sound, move_servo, move_gimbal, with_body,
}
use msde_robotics.Robot.Moves.Base.{move_base_action}
use msde_robotics.Robot.Moves.{move_arm_action, move_servo_action, move_gimbal_action}

-- `operator bool` of a mask's bit.
abbrev has_bit : ℕ → ℕ → Bool
has_bit bit mask = not (bit_and mask bit == 0)

unfoldable pub engage_wheel_motors : Bool → Robot → Robot × List Output
engage_wheel_motors value r =
    let engaged = record r.chassis { wheel_motors_engaged = value } in
    if differ_bool value r.chassis.wheel_motors_engaged
    then (record r { chassis = if value then stop engaged else engaged }, engage_motors value ∷ [])
    else (r, [])

unfoldable pub enable_tof : ℕ → Robot → Robot × Bool
enable_tof index r =
    let set = set_enable_tof index true r.tof in
    if set.1
    then (record r { tof = set.0; modules = record r.modules { has_tof = true } }, true)
    else (r, false)

unfoldable pub set_target_servo_angle : ℕ → Float → Robot → Robot
set_target_servo_angle index v r = record r {
  servos =
      update_servo index
        (λ s. record s {
          angle = record s.angle { desired = v };
          mode = record s.mode { desired = angle };
        })
        r.servos;
}

unfoldable pub set_target_servo_speed : ℕ → Float → Robot → Robot
set_target_servo_speed index v r = record r {
  servos = update_servo index (λ s. record s { speed = record s.speed { desired = v } }) r.servos;
}

unfoldable pub set_servo_mode : ℕ → ServoMode → Robot → Robot
set_servo_mode index v r = record r {
  servos = update_servo index (λ s. record s { mode = record s.mode { desired = v } }) r.servos;
}

unfoldable pub enable_servo : ℕ → Bool → Robot → Robot
enable_servo index v r = record r {
  servos =
      update_servo index (λ s. record s { enabled = record s.enabled { desired = v } }) r.servos;
}

-- `none` is an access behind the end.
unfoldable pub get_servo_angle : ℕ → Robot → Option Float
get_servo_angle index r = elim (get_elem? r.servos index) [
  | none ↦ none
  | some s ↦ some s.angle.current
]

unfoldable pub get_servo_speed : ℕ → Robot → Option Float
get_servo_speed index r = elim (get_elem? r.servos index) [
  | none ↦ none
  | some s ↦ some s.speed.current
]

unfoldable pub set_blaster_led : Float → Bool → Robot → Robot
set_blaster_led intensity on r = record r {
  blaster_led = record r.blaster_led { desired = if on then intensity else zero_f };
}

unfoldable pub set_enable_sdk : Bool → Robot → Robot
set_enable_sdk value r =
    if not (differ_bool r.sdk_enabled value) then r else record r { sdk_enabled = value }

unfoldable pub stop_streaming : Robot → Robot × Bool
stop_streaming r = (record r { camera = record r.camera { streaming = false } }, true)

module _ (m : Math) where
  open m use {fp}
  open fp use {div, eq}

  -- `Robot::set_mode`
  unfoldable pub set_mode : ℕ → Robot → Robot
  set_mode mode r = record r {
    mode = mode;
    gimbal = follow_chassis m (mode == chassis_lead) r.gimbal;
  }

  -- `supported` is the simulator's `forward_camera_resolution`.
  unfoldable pub start_streaming : (ℕ → ℕ → Bool) → ℕ → ℕ → Robot → Robot × Bool
  start_streaming supported width height r =
      let timed = record r.camera { fps = div one_f r.last_time_step } in
      if eq r.last_time_step zero_f
      then (r, false)
      else if not (supported width height)
      then (record r { camera = timed }, false)
      else (
        record r { camera = record timed { width = width; height = height; streaming = true } },
        true,
      )

  unfoldable pub set_led_effect : Color → ℕ → ℕ → ℕ → Float → Float → Bool → Robot → Robot
  set_led_effect c mask led_mask effect period_on period_off loop r =
      let chassis_update = update_active m c effect period_on period_off loop in
      let gimbal_update = update_composite m c effect period_on period_off loop led_mask in
      let a = r.chassis_leds in
      let b = r.gimbal_leds in
      record r {
        chassis_leds = record {
          rear = if has_bit 0x1 mask then chassis_update a.rear else a.rear;
          front = if has_bit 0x2 mask then chassis_update a.front else a.front;
          left = if has_bit 0x4 mask then chassis_update a.left else a.left;
          right = if has_bit 0x8 mask then chassis_update a.right else a.right;
        };
        gimbal_leds = record {
          top_left = if has_bit 0x10 mask then gimbal_update b.top_left else b.top_left;
          top_right = if has_bit 0x20 mask then gimbal_update b.top_right else b.top_right;
        };
      }

  -- The robot's own actions, which push nothing; `memory` is what a constructor does not set.
  unfoldable pub submit_base :
      Action (Pose2D × Pose2D) → Pose2D → Float → Float → Schedule Task → Schedule Task × State
  submit_base memory pose linear_speed angular_speed =
      let a = move_base_action m memory pose linear_speed angular_speed in
      submit_move (with_body (move_base a.body) a)

unfoldable pub submit_arm :
    Action Float → Float → Float → Bool → Robot → Schedule Task → Schedule Task × State
submit_arm memory x z absolute r =
    let a = move_arm_action memory x z absolute in
    submit_move_arm r.modules.has_arm (with_body (move_arm a.body) a)

unfoldable pub submit_sound : ℕ → ℕ → Schedule Task → Schedule Task × State
submit_sound sound_id times =
    let a = play_sound_action sound_id times in submit_play_sound (with_body (play_sound a.body) a)

unfoldable pub submit_servo :
    Action Float → ℕ → Float → Robot → Schedule Task → Option (Schedule Task × State)
submit_servo memory id target_angle r =
    let a = move_servo_action memory id target_angle in
    submit_move_servo r.modules.has_servo id (with_body (move_servo a.body) a)

unfoldable pub submit_gimbal :
    Action (GimbalValues Float)
    → GimbalValues Float
    → GimbalValues Float
    → GimbalValues Frame
    → Robot
    → Schedule Task
    → Schedule Task × State
submit_gimbal memory target speed frame r =
    let a = move_gimbal_action memory target speed frame in
    submit_move_gimbal r.modules.has_gimbal (with_body (move_gimbal a.body) a)
