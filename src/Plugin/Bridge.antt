-- ===== src/Plugin/Bridge.antt =====
-- robomaster_sim/coppeliaSim_plugin/coppeliasim_robot.hpp and coppeliasim_robot.cpp: how the robot
-- CoppeliaSimRobot drives and reads the simulator's objects, for its versions from 4.8 on. An object
-- has a handle, and what no object was found for has -1.
pub mod Reads
use msde_robotics.Prelude.{
  ℕ, ◌<◌, List, [], ◌∷◌, ◌++◌, Bool, true, false, not, ◌&&◌, ◌||◌, Option, none, some, ltb, leb,
  ◌==◌, if◌then◌else◌, get_elem?, length,
}
use msde_robotics.Prelude.Int.{ℤ, pos, negsuc}
use msde_robotics.Prelude.SortedMap.{lookup, assign}
use msde_robotics.Wire.Bytes.{◌>>=◌, Float}
use msde_robotics.Robot.Platform.{Double, zero_f, one_f}
use msde_robotics.Robot.Maths.{Math, clamp}
use msde_robotics.Robot.Geometry.{Vector3, Attitude, WheelValues, GimbalValues, Imu, zero_imu}
use msde_robotics.Robot.Lights.{Color}
use msde_robotics.Robot.Servos.{ServoMode, is_speed}
use msde_robotics.Robot.Objects.{DetectedObjects}
use msde_robotics.Robot.Machine.{
  Robot, Readings, Output, target_wheel_speeds, engage_motors, chassis_led, gimbal_led,
  target_gripper, target_servo_angle, target_servo_speed, servo_mode, servo_enabled,
  blaster_intensity,
}
use msde_robotics.Robot.Setters.{enable_tof}
use msde_robotics.Plugin.Vision.{Sight, Corner}
use msde_robotics.Plugin.Vision.Detector.{run_detector}

-- The names of the signals: "gripper#…" and "target_gripper#…" with a handle, and "signal.value".
pub data Signal : Type 0 where
  gripper_state : ℤ → Signal
  gripper_target : ℤ → Signal
  signal_value : Signal

pub data Parameter : Type 0 where
  motor_enabled ctrl_enabled resolution_x resolution_y : Parameter

-- The calls that change the simulator.
pub data Call : Type 0 where
  set_joint_target_velocity : ℤ → Float → Call
  set_joint_target_position : ℤ → Float → Call
  set_shape_color : ℤ → Color → Call
  set_light_parameters : ℤ → ℕ → Option Color → Call
  set_int32_param : ℤ → Parameter → ℕ → Call
  set_int32_signal : Signal → ℕ → Call

-- The members of `CoppeliaSimRobot` but for its vision's. `servo_handles` has the keys 0 to 4, the
-- last two for the gimbal.
pub record Handles : Type 0 where
  pub wheel_joint_handles : WheelValues ℤ
  pub chassis_led_handles : List ℤ
  pub gimbal_led_handles : List (List ℤ)
  pub blaster_light_handle : ℤ
  pub servo_handles : List ℤ
  pub tof_handles : List (ℕ × ℤ)
  pub camera_handle : ℤ
  pub vision_handle : ℤ
  pub gripper_state_signal : Signal
  pub gripper_target_signal : Signal
  pub imu_handle : ℤ
  pub accelerometer_handle : ℤ
  pub accelerometer_signal : Signal
  pub gyro_handle : ℤ
  pub gyro_signal : Signal

abbrev pub is_positive : ℤ → Bool
is_positive (pos n) = ltb 0 n
is_positive (negsuc n) = false

abbrev pub is_zero : ℤ → Bool
is_zero (pos n) = n == 0
is_zero (negsuc n) = false

abbrev bit_of : Bool → ℕ
bit_of b = if b then 1 else 0

unfoldable pub forward_target_wheel_speeds : Handles → WheelValues Float → List Call
forward_target_wheel_speeds h speeds =
    set_joint_target_velocity h.wheel_joint_handles.front_left speeds.front_left
    ∷ set_joint_target_velocity h.wheel_joint_handles.front_right speeds.front_right
    ∷ set_joint_target_velocity h.wheel_joint_handles.rear_left speeds.rear_left
    ∷ set_joint_target_velocity h.wheel_joint_handles.rear_right speeds.rear_right
    ∷ []

unfoldable pub forward_engage_wheel_motors : Handles → Bool → List Call
forward_engage_wheel_motors h value =
    set_int32_param h.wheel_joint_handles.front_left motor_enabled (bit_of value)
    ∷ set_int32_param h.wheel_joint_handles.front_right motor_enabled (bit_of value)
    ∷ set_int32_param h.wheel_joint_handles.rear_left motor_enabled (bit_of value)
    ∷ set_int32_param h.wheel_joint_handles.rear_right motor_enabled (bit_of value)
    ∷ []

unfoldable pub forward_chassis_led : Handles → ℕ → Color → List Call
forward_chassis_led h index rgb = elim (get_elem? h.chassis_led_handles index) [
  | none ↦ []
  | some led ↦ set_shape_color led rgb ∷ []
]

unfoldable pub forward_gimbal_led : Handles → ℕ → ℕ → Color → List Call
forward_gimbal_led h index part rgb = elim (get_elem? h.gimbal_led_handles index) [
  | none ↦ []
  | some parts ↦ elim (get_elem? parts part) [ none ↦ [] | some led ↦ set_shape_color led rgb ∷ [] ]
]

-- The power is not used.
unfoldable pub forward_target_gripper : Handles → ℕ → Float → List Call
forward_target_gripper h state power = set_int32_signal h.gripper_target_signal state ∷ []

-- A call for the servo if its handle is positive. `none` is the exception of `at`.
unfoldable pub on_servo : Handles → ℕ → (ℤ → Call) → Option (List Call)
on_servo h index call = elim (get_elem? h.servo_handles index) [
  | none ↦ none
  | some servo ↦ some (if is_positive servo then call servo ∷ [] else [])
]

unfoldable pub forward_target_servo_angle : Handles → ℕ → Float → Option (List Call)
unfolding on_servo
forward_target_servo_angle h index angle =
    on_servo h index (λ servo. set_joint_target_position servo angle)

unfoldable pub forward_target_servo_speed : Handles → ℕ → Float → Option (List Call)
unfolding on_servo
forward_target_servo_speed h index speed =
    on_servo h index (λ servo. set_joint_target_velocity servo speed)

unfoldable pub forward_servo_mode : Handles → ℕ → ServoMode → Option (List Call)
unfolding on_servo
forward_servo_mode h index mode =
    on_servo h index (λ servo. set_int32_param servo ctrl_enabled (bit_of (not (is_speed mode))))

unfoldable pub forward_servo_enabled : Handles → ℕ → Bool → Option (List Call)
unfolding on_servo
forward_servo_enabled h index value =
    on_servo h index (λ servo. set_int32_param servo motor_enabled (bit_of value))

module _ (m : Math) where
  open m use {fp, narrow, mul_double}
  open fp use {eq, widen}

  unfoldable pub forward_blaster_led : Handles → Float → List Call
  forward_blaster_led h value =
      let rgb : Color = record { r = zero_f; g = clamp m value zero_f one_f; b = zero_f } in
      if not (is_positive h.blaster_light_handle)
      then []
      else if eq value zero_f
      then set_light_parameters h.blaster_light_handle 0 none ∷ []
      else set_light_parameters h.blaster_light_handle 1 (some rgb) ∷ []

  -- The virtual functions behind the robot's outputs.
  unfoldable pub forward_output : Handles → Output → Option (List Call)
  unfolding forward_target_wheel_speeds forward_engage_wheel_motors forward_chassis_led
      forward_gimbal_led forward_target_gripper forward_target_servo_angle
      forward_target_servo_speed forward_servo_mode forward_servo_enabled forward_blaster_led
  forward_output h (target_wheel_speeds speeds) = some (forward_target_wheel_speeds h speeds)
  forward_output h (engage_motors value) = some (forward_engage_wheel_motors h value)
  forward_output h (chassis_led index rgb) = some (forward_chassis_led h index rgb)
  forward_output h (gimbal_led index part rgb) = some (forward_gimbal_led h index part rgb)
  forward_output h (target_gripper state power) = some (forward_target_gripper h state power)
  forward_output h (target_servo_angle index angle) = forward_target_servo_angle h index angle
  forward_output h (target_servo_speed index speed) = forward_target_servo_speed h index speed
  forward_output h (servo_mode index mode) = forward_servo_mode h index mode
  forward_output h (servo_enabled index value) = forward_servo_enabled h index value
  forward_output h (blaster_intensity value) = some (forward_blaster_led h value)

  unfoldable pub forward_outputs : Handles → List Output → Option (List Call)
  unfolding forward_output
  forward_outputs h [] = some []
  forward_outputs h (o ∷ os) = do
    calls ← forward_output h o
    rest ← forward_outputs h os
    some (calls ++ rest)

-- The size of the vision sensor's image is that of the camera already, or it is changed.
unfoldable pub forward_camera_resolution : (ℤ → ℕ × ℕ) → Handles → ℕ → ℕ → List Call × Bool
forward_camera_resolution size h width height =
    let now = size h.camera_handle in
    if is_zero h.camera_handle
    then ([], false)
    else if width == now.0 && height == now.1
    then ([], true)
    else (
      set_int32_param h.camera_handle resolution_x width
          ∷ set_int32_param h.camera_handle resolution_y height
          ∷ [],
      true,
    )

-- `CoppeliaSimRobot::enable_tof`; MAX_NUMBER_OF_TOF_SENSORS is 4.
unfoldable pub enable_tof_sensor : ℕ → ℤ → Handles → Robot → Handles × Robot
enable_tof_sensor index sensor h r =
    let enabled = enable_tof index r in
    if not (ltb index 4)
    then (h, r)
    else if enabled.1
    then (record h { tof_handles = assign index sensor h.tof_handles }, enabled.0)
    else (h, enabled.0)
