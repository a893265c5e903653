-- ===== src/Plugin/Reachable.antt =====
-- The registries that the plugin of robomaster_sim/coppeliaSim_plugin/plugin.cpp reaches.
pub mod Placed
pub mod Safe
use Prim.Native.String.{String}
use msde_robotics.Prelude.{ℕ, ◌≡◌, [], List, Bool, some}
use msde_robotics.Prelude.Int.{ℤ}
use msde_robotics.Wire.Bytes.{Float}
use msde_robotics.Robot.Platform.{Double}
use msde_robotics.Robot.Maths.{Math}
use msde_robotics.Robot.Geometry.{Pose2D, Twist2D, WheelValues, GimbalValues}
use msde_robotics.Robot.Action.{Action}
use msde_robotics.Robot.Lights.{Color}
use msde_robotics.Robot.Machine.{Robot, Memory}
use msde_robotics.Plugin.Bridge.{Call}
use msde_robotics.Plugin.Bridge.Reads.{Scene}
use msde_robotics.Plugin.Interfaces.{Sockets}
use msde_robotics.Plugin.Registry.{Creation, Models, Registry, add_robot, end_simulation}
use msde_robotics.Plugin.Callbacks.Motion.{
  set_target_wheel_speeds, set_target_twist, move_to, move_arm_to, move_gimbal_to, move_servo_to,
  set_robot_mode,
}
use msde_robotics.Plugin.Callbacks.Devices.{
  set_led_effect_of, set_gripper_target, set_servo_target_speed, set_mode_of_servo, enable_servo_of,
  enable_gimbal, set_gimbal_target_speeds, set_blaster_intensity, enable_camera_of,
  enable_distance_sensor, disable_distance_sensor,
}
use msde_robotics.Plugin.Callbacks.Vision.{set_class, configure, enable_vision}
use msde_robotics.Plugin.Steps.{Surroundings, step_plugin}

module _ (m : Math) (publish : ℕ → Float → Robot × List (List ℕ) → Robot × List (List ℕ)) where
  -- What a step finds, with what the robots' interfaces do behind their steps.
  abbrev pub around : (ℕ → Scene) → Float → Surroundings
  around scene yaw = record { scene = scene; interface_step = publish; yaw = yaw }

  -- By creations of robots, the functions that scripts call, steps, and the end of the simulation.
  pub data Reachable : Registry → Type 0 where
    empty : Reachable (record { next_robot_handle = 0; robots = []; interfaces = [] })
    robot_added :
        {st : Registry} (o : Models) (n : Sockets) (memory : Memory) (unset : Float) (c : Creation)
        → Reachable st
        → Reachable (add_robot m o n memory unset c st).0
    ended : {st : Registry} → Reachable st → Reachable (end_simulation st)
    stepped :
        {st st' : Registry} (scene : ℕ → Scene) (yaw time_step : Float) (calls : List Call)
        (frames : List (List ℕ))
        → Reachable st
        → step_plugin m (around scene yaw) time_step st ≡ some (st', calls, frames)
        → Reachable st'
    twist_set :
        {st : Registry} (h : ℕ) (twist : Twist2D)
        → Reachable st
        → Reachable (set_target_twist m h twist st)
    wheel_speeds_set :
        {st : Registry} (h : ℕ) (speeds : WheelValues Float)
        → Reachable st
        → Reachable (set_target_wheel_speeds h speeds st)
    moved :
        {st : Registry} (memory : Action (Pose2D × Pose2D)) (h : ℕ) (pose : Pose2D) (v w : Float)
        → Reachable st
        → Reachable (move_to m memory h pose v w st).0
    arm_moved :
        {st : Registry} (memory : Action Float) (h : ℕ) (x z : Float) (absolute : Bool)
        → Reachable st
        → Reachable (move_arm_to memory h x z absolute st).0
    gimbal_moved :
        {st : Registry} (memory : Action (GimbalValues Float)) (h : ℕ)
        (target speed : GimbalValues Float) (frame : GimbalValues String)
        → Reachable st
        → Reachable (move_gimbal_to memory h target speed frame st).0
    servo_moved :
        {st : Registry} (memory : Action Float) (h servo : ℕ) (angle : Float)
        → Reachable st
        → Reachable (move_servo_to memory h servo angle st).0
    mode_set :
        {st : Registry} (h : ℕ) (mode : String)
        → Reachable st
        → Reachable (set_robot_mode m h mode st)
    led_effect_set :
        {st : Registry} (h : ℕ) (color : Color) (mask led_mask : ℕ) (effect : String)
        (on off : Float) (loop : Bool)
        → Reachable st
        → Reachable (set_led_effect_of m h color mask led_mask effect on off loop st)
    gripper_set :
        {st : Registry} (h : ℕ) (state : String) (power : Float)
        → Reachable st
        → Reachable (set_gripper_target h state power st)
    servo_speed_set :
        {st : Registry} (h servo : ℕ) (v : Float)
        → Reachable st
        → Reachable (set_servo_target_speed h servo v st)
    servo_mode_set :
        {st : Registry} (h servo : ℕ) (mode : String)
        → Reachable st
        → Reachable (set_mode_of_servo h servo mode st)
    servo_enabled :
        {st : Registry} (h servo : ℕ) (value : Bool)
        → Reachable st
        → Reachable (enable_servo_of h servo value st)
    gimbal_enabled :
        {st : Registry} (h : ℕ) (value : Bool) → Reachable st → Reachable (enable_gimbal h value st)
    gimbal_speeds_set :
        {st : Registry} (h : ℕ) (speeds : GimbalValues Float)
        → Reachable st
        → Reachable (set_gimbal_target_speeds m h speeds st)
    blaster_set :
        {st : Registry} (h : ℕ) (intensity : Float)
        → Reachable st
        → Reachable (set_blaster_intensity m h intensity st)
    camera_enabled :
        {st : Registry} (size : ℤ → ℕ × ℕ) (h : ℕ) (enabled : Bool) (resolution : String)
        → Reachable st
        → Reachable (enable_camera_of m size h enabled resolution st).0
    sensor_enabled :
        {st : Registry} (h port : ℕ) (sensor : ℤ)
        → Reachable st
        → Reachable (enable_distance_sensor h port sensor st)
    sensor_disabled :
        {st : Registry} (h port : ℕ) → Reachable st → Reachable (disable_distance_sensor h port st)
    class_set :
        {st : Registry} (size : ℕ → ℕ → Double) (shapes : ℕ → List ℕ) (h : ℕ) (roots : List ℕ)
        (type : ℕ)
        → Reachable st
        → Reachable (set_class size shapes h roots type st)
    vision_configured :
        {st : Registry} (h : ℕ) (width height tolerance : Float)
        → Reachable st
        → Reachable (configure m h width height tolerance st)
    vision_enabled :
        {st : Registry} (h mask : ℕ) → Reachable st → Reachable (enable_vision h mask st)
