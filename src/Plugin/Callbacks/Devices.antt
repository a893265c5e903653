-- ===== src/Plugin/Callbacks/Devices.antt =====
-- robomaster_sim/coppeliaSim_plugin/plugin.cpp: the scripts' functions about the lights, the gripper,
-- the gimbal, the servos, the camera and the distance sensors.
use Prim.Native.String.{String}
use text.Mathlib.Text.{◌==◌ as str_eq}
use msde_robotics.Prelude.{
  ℕ, List, [], Bool, false, not, Option, none, some, ◌==◌, if◌then◌else◌, get_elem?,
}
use msde_robotics.Prelude.Int.{ℤ}
use msde_robotics.Wire.Bytes.{Float}
use msde_robotics.Robot.Platform.{zero_f, one_f}
use msde_robotics.Robot.Maths.{Math, clamp}
use msde_robotics.Robot.Geometry.{GimbalValues}
use msde_robotics.Robot.Devices.{set_enable_tof}
use msde_robotics.Robot.Lights.{Color, off, on, breath, flash, scrolling}
use msde_robotics.Robot.Servos.{ServoMode, angle, speed, pause, opened, closed, set_gripper}
use msde_robotics.Robot.Gimbals.{attitude, enable, set_target_speeds}
use msde_robotics.Robot.Setters
use msde_robotics.Plugin.Bridge.{Call, enable_tof_sensor, forward_camera_resolution}
use msde_robotics.Plugin.Registry.{Member, Registry}
use msde_robotics.Plugin.Callbacks.{on_member, on_robot, of_robot, gimbal_frame}

-- An unknown effect, state or mode is ignored.
unfoldable pub named_effect : String → Option ℕ
named_effect effect =
    if str_eq effect "off"
    then some off
    else if str_eq effect "on"
    then some on
    else if str_eq effect "breath"
    then some breath
    else if str_eq effect "flash"
    then some flash
    else if str_eq effect "scrolling"
    then some scrolling
    else none

unfoldable pub named_status : String → Option ℕ
named_status state =
    if str_eq state "pause"
    then some pause
    else if str_eq state "open"
    then some opened
    else if str_eq state "close"
    then some closed
    else none

unfoldable pub set_gripper_target : ℕ → String → Float → Registry → Registry
unfolding on_robot named_status
set_gripper_target handle state power st = elim (named_status state) [
  | none ↦ st
  | some s ↦ on_robot handle (λ r. record r { gripper = set_gripper s power r.gripper }) st
]

unfoldable pub status_name : ℕ → Option String
status_name s =
    if s == pause
    then some "pause"
    else if s == opened
    then some "open"
    else if s == closed
    then some "close"
    else none

unfoldable pub get_gripper : ℕ → Registry → Option String
unfolding of_robot status_name
get_gripper handle st = elim (of_robot handle (λ r. r.gripper.state.current) st) [
  | none ↦ none
  | some s ↦ status_name s
]

-- An index behind the end, undefined in the source, changes nothing and reads nothing.
unfoldable pub set_servo_target_speed : ℕ → ℕ → Float → Registry → Registry
unfolding on_robot
set_servo_target_speed handle servo v = on_robot handle (Setters.set_target_servo_speed servo v)

unfoldable pub read_servo_angle_of : ℕ → ℕ → Registry → Option Float
unfolding of_robot
read_servo_angle_of handle servo st = elim (of_robot handle (Setters.get_servo_angle servo) st) [
  | none ↦ none
  | some v ↦ v
]

unfoldable pub named_servo_mode : String → Option ServoMode
named_servo_mode mode =
    if str_eq mode "angle" then some angle else if str_eq mode "speed" then some speed else none

unfoldable pub set_mode_of_servo : ℕ → ℕ → String → Registry → Registry
unfolding on_robot named_servo_mode
set_mode_of_servo handle servo mode st = elim (named_servo_mode mode) [
  | none ↦ st
  | some v ↦ on_robot handle (Setters.set_servo_mode servo v) st
]

unfoldable pub enable_servo_of : ℕ → ℕ → Bool → Registry → Registry
unfolding on_robot
enable_servo_of handle servo value = on_robot handle (Setters.enable_servo servo value)

unfoldable pub enable_gimbal : ℕ → Bool → Registry → Registry
unfolding on_robot
enable_gimbal handle value = on_robot handle (λ r. record r { gimbal = enable value r.gimbal })

unfoldable pub enable_distance_sensor : ℕ → ℕ → ℤ → Registry → Registry
unfolding on_member
enable_distance_sensor handle port sensor st =
    (on_member handle tt
      (λ member.
        let next = enable_tof_sensor port sensor member.handles member.robot in
        (record member { handles = next.0; robot = next.1 }, tt))
      st).0

unfoldable pub disable_distance_sensor : ℕ → ℕ → Registry → Registry
unfolding on_robot
disable_distance_sensor handle port =
    on_robot handle (λ r. record r { tof = (set_enable_tof port false r.tof).0 })

unfoldable pub get_distance_reading : ℕ → ℕ → Registry → Option Float
unfolding of_robot
get_distance_reading handle port st = elim (of_robot handle (λ r. r.tof) st) [
  | none ↦ none
  | some readings ↦ elim (get_elem? readings port) [
    | none ↦ none
    | some reading ↦ some reading.distance
  ]
]

-- The size of the camera's image.
unfoldable pub resolution_of : String → ℕ × ℕ
resolution_of resolution =
    if str_eq resolution "720p"
    then (1280, 720)
    else if str_eq resolution "540p"
    then (960, 540)
    else (640, 360)

module _ (m : Math) where
  open m use {fp}
  open fp use {lt, eq}

  unfoldable pub set_led_effect_of :
      ℕ → Color → ℕ → ℕ → String → Float → Float → Bool → Registry → Registry
  unfolding on_robot named_effect
  set_led_effect_of handle color mask led_mask effect period_on period_off loop st =
      elim (named_effect effect) [
        | none ↦ st
        | some e ↦
            on_robot handle
              (Setters.set_led_effect m color mask led_mask e period_on period_off loop) st
      ]

  unfoldable pub get_gimbal_angles :
      ℕ → GimbalValues String → Registry → Option (GimbalValues Float)
  unfolding of_robot
  get_gimbal_angles handle frame = of_robot handle (λ r.
      let angles : GimbalValues Float = record {
        yaw = (attitude m (gimbal_frame frame.yaw) r.gimbal).yaw;
        pitch = (attitude m (gimbal_frame frame.pitch) r.gimbal).pitch;
      } in
      angles)

  unfoldable pub set_gimbal_target_speeds : ℕ → GimbalValues Float → Registry → Registry
  unfolding on_robot
  set_gimbal_target_speeds handle speeds =
      on_robot handle (λ r. record r { gimbal = set_target_speeds m speeds r.gimbal })

  unfoldable pub set_blaster_intensity : ℕ → Float → Registry → Registry
  unfolding on_robot
  set_blaster_intensity handle intensity =
      on_robot handle
        (Setters.set_blaster_led (clamp m intensity zero_f one_f) (lt zero_f intensity))

  -- `size` is that of the vision sensor's image. The calls are made where the time step is known.
  unfoldable pub switch_camera : (ℤ → ℕ × ℕ) → Bool → String → Member → Member × List Call
  unfolding resolution_of
  switch_camera size enabled resolution member =
      let wanted = resolution_of resolution in
      let forward = forward_camera_resolution size member.handles in
      let started =
        Setters.start_streaming m (λ w h. (forward w h).1) wanted.0 wanted.1 member.robot in
      if not enabled
      then (record member { robot = (Setters.stop_streaming member.robot).0 }, [])
      else (
        record member { robot = started.0 },
        if eq member.robot.last_time_step zero_f then [] else (forward wanted.0 wanted.1).0,
      )

  unfoldable pub enable_camera_of :
      (ℤ → ℕ × ℕ) → ℕ → Bool → String → Registry → Registry × List Call
  unfolding on_member switch_camera
  enable_camera_of size handle enabled resolution =
      on_member handle [] (switch_camera size enabled resolution)
