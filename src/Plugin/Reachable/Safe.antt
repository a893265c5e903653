-- ===== src/Plugin/Reachable/Safe.antt =====
-- What the plugin of robomaster_sim/coppeliaSim_plugin/plugin.cpp changes in the simulator, whatever
-- happened before.
use msde_robotics.Prelude.{ℕ, ◌≡◌, refl, subst, List}
use msde_robotics.Wire.Bytes.{Float}
use msde_robotics.Robot.Maths.{Math}
use msde_robotics.Robot.Machine.{Robot}
use msde_robotics.Robot.Setters.{
  stop_streaming, set_target_servo_speed, set_servo_mode, enable_servo, set_mode, set_led_effect,
  set_blaster_led,
}
use msde_robotics.Plugin.Bridge.Reads.{Scene}
use msde_robotics.Plugin.Registry.{Registry, end_simulation}
use msde_robotics.Prelude.SortedMap.{or_else}
use msde_robotics.Robot.Action.{rejected}
use msde_robotics.Robot.Schedule.{
  submit_move, submit_move_arm, submit_move_gimbal, submit_move_servo,
}
use msde_robotics.Robot.Tasks.{move_base, move_arm, move_servo, move_gimbal}
use msde_robotics.Robot.Moves.Base.{move_base_action}
use msde_robotics.Robot.Moves.{move_arm_action, move_servo_action, move_gimbal_action}
use msde_robotics.Plugin.Callbacks.{
  move_handle, move_arm_handle, move_gimbal_handle, move_servo_handle, gimbal_frame,
}
use msde_robotics.Plugin.Callbacks.Motion.{
  set_target_wheel_speeds, set_target_twist, move_to, move_arm_to, move_gimbal_to, move_servo_to,
  set_robot_mode, named_mode,
}
use msde_robotics.Plugin.Callbacks.Devices.{
  set_led_effect_of, set_gripper_target, set_servo_target_speed, set_mode_of_servo, enable_servo_of,
  enable_gimbal, set_gimbal_target_speeds, set_blaster_intensity, enable_camera_of,
  enable_distance_sensor, disable_distance_sensor, named_effect, named_status, named_servo_mode,
}
use msde_robotics.Plugin.Callbacks.Vision.{on_sight, set_class, configure, enable_vision}
use msde_robotics.Plugin.Steps.{step_plugin}
use msde_robotics.Plugin.Steps.Together.{AllPlaced, Completes, step_plugin-Completes}
use msde_robotics.Plugin.Reachable.{
  around, Reachable, empty, robot_added, ended, stepped, twist_set, wheel_speeds_set, moved,
  arm_moved, gimbal_moved, servo_moved, mode_set, led_effect_set, gripper_set, servo_speed_set,
  servo_mode_set, servo_enabled, gimbal_enabled, gimbal_speeds_set, blaster_set, camera_enabled,
  sensor_enabled, sensor_disabled, class_set, vision_configured, vision_enabled,
}
use msde_robotics.Plugin.Reachable.Placed.{
  on_member-AllPlaced, on_robot-AllPlaced, start_action-AllPlaced, known,
  enable_tof_sensor-IsPlaced, add_robot-AllPlaced, switch_camera-IsPlaced,
}

module _ (m : Math) (publish : ℕ → Float → Robot × List (List ℕ) → Robot × List (List ℕ)) where
  module _
      (keeps : (handle : ℕ) (t : Float) (v : Robot × List (List ℕ))
        → (publish handle t v).0.modules ≡ v.0.modules) where
    Reachable-AllPlaced : {st : Registry} → Reachable m publish st → AllPlaced st.robots
    unfolding end_simulation set_target_twist set_target_wheel_speeds move_to move_arm_to
        move_gimbal_to move_servo_to set_robot_mode set_mode set_led_effect_of set_led_effect
        set_gripper_target set_servo_target_speed set_target_servo_speed set_mode_of_servo
        set_servo_mode enable_servo_of enable_servo enable_gimbal set_gimbal_target_speeds
        set_blaster_intensity set_blaster_led enable_camera_of stop_streaming enable_distance_sensor
        disable_distance_sensor set_class configure enable_vision on_sight
    Reachable-AllPlaced empty = tt
    Reachable-AllPlaced (robot_added {st = st} o n memory unset c r) =
        add_robot-AllPlaced m o n memory unset c st (Reachable-AllPlaced r)
    Reachable-AllPlaced (ended r) = tt
    Reachable-AllPlaced (stepped {st = st} scene yaw time_step calls frames r e) =
        let done =
          step_plugin-Completes m (around m publish scene yaw) time_step st (Reachable-AllPlaced r)
            keeps in
        (subst (Completes m (around m publish scene yaw) time_step st) e done).1
    Reachable-AllPlaced (twist_set {st = st} h twist r) =
        on_robot-AllPlaced h _ st (λ x. refl) (Reachable-AllPlaced r)
    Reachable-AllPlaced (wheel_speeds_set {st = st} h speeds r) =
        on_robot-AllPlaced h _ st (λ x. refl) (Reachable-AllPlaced r)
    Reachable-AllPlaced (moved {st = st} memory h pose v w r) =
        start_action-AllPlaced h move_handle move_base (move_base_action m memory pose v w)
          (λ member. submit_move) st (Reachable-AllPlaced r)
    Reachable-AllPlaced (arm_moved {st = st} memory h x z absolute r) =
        start_action-AllPlaced h move_arm_handle move_arm (move_arm_action memory x z absolute)
          (λ member. submit_move_arm member.robot.modules.has_arm) st (Reachable-AllPlaced r)
    Reachable-AllPlaced (gimbal_moved {st = st} memory h target speed frame r) =
        start_action-AllPlaced h move_gimbal_handle move_gimbal
          (move_gimbal_action memory target speed
            (record { yaw = gimbal_frame frame.yaw; pitch = gimbal_frame frame.pitch }))
          (λ member. submit_move_gimbal member.robot.modules.has_gimbal) st (Reachable-AllPlaced r)
    Reachable-AllPlaced (servo_moved {st = st} memory h servo angle r) =
        start_action-AllPlaced h move_servo_handle move_servo (move_servo_action memory servo angle)
          (λ member job s.
            or_else (submit_move_servo member.robot.modules.has_servo servo job s) (s, rejected))
          st (Reachable-AllPlaced r)
    Reachable-AllPlaced (mode_set {st = st} h mode r) =
        let before = Reachable-AllPlaced r in
        known (named_mode mode) _ st (λ a. on_robot-AllPlaced h _ st (λ x. refl) before) before
    Reachable-AllPlaced (led_effect_set {st = st} h color mask led_mask effect on off loop r) =
        let before = Reachable-AllPlaced r in
        known (named_effect effect) _ st (λ a. on_robot-AllPlaced h _ st (λ x. refl) before) before
    Reachable-AllPlaced (gripper_set {st = st} h state power r) =
        let before = Reachable-AllPlaced r in
        known (named_status state) _ st (λ a. on_robot-AllPlaced h _ st (λ x. refl) before) before
    Reachable-AllPlaced (servo_speed_set {st = st} h servo v r) =
        on_robot-AllPlaced h _ st (λ x. refl) (Reachable-AllPlaced r)
    Reachable-AllPlaced (servo_mode_set {st = st} h servo mode r) =
        let before = Reachable-AllPlaced r in
        known (named_servo_mode mode) _ st (λ a. on_robot-AllPlaced h _ st (λ x. refl) before)
          before
    Reachable-AllPlaced (servo_enabled {st = st} h servo value r) =
        on_robot-AllPlaced h _ st (λ x. refl) (Reachable-AllPlaced r)
    Reachable-AllPlaced (gimbal_enabled {st = st} h value r) =
        on_robot-AllPlaced h _ st (λ x. refl) (Reachable-AllPlaced r)
    Reachable-AllPlaced (gimbal_speeds_set {st = st} h speeds r) =
        on_robot-AllPlaced h _ st (λ x. refl) (Reachable-AllPlaced r)
    Reachable-AllPlaced (blaster_set {st = st} h intensity r) =
        on_robot-AllPlaced h _ st (λ x. refl) (Reachable-AllPlaced r)
    Reachable-AllPlaced (camera_enabled {st = st} size h enabled resolution r) =
        on_member-AllPlaced h _ _ st (switch_camera-IsPlaced m size enabled resolution)
          (Reachable-AllPlaced r)
    Reachable-AllPlaced (sensor_enabled {st = st} h port sensor r) =
        on_member-AllPlaced h tt _ st (enable_tof_sensor-IsPlaced port sensor)
          (Reachable-AllPlaced r)
    Reachable-AllPlaced (sensor_disabled {st = st} h port r) =
        on_robot-AllPlaced h _ st (λ x. refl) (Reachable-AllPlaced r)
    Reachable-AllPlaced (class_set {st = st} size shapes h roots type r) =
        on_member-AllPlaced h tt _ st
          (λ member p. record { located = p.located; servos = p.servos }) (Reachable-AllPlaced r)
    Reachable-AllPlaced (vision_configured {st = st} h width height tolerance r) =
        on_member-AllPlaced h tt _ st
          (λ member p. record { located = p.located; servos = p.servos }) (Reachable-AllPlaced r)
    Reachable-AllPlaced (vision_enabled {st = st} h mask r) =
        on_robot-AllPlaced h _ st (λ x. refl) (Reachable-AllPlaced r)

  -- In every state that creations of robots, the functions of the scripts, steps and ends of the
  -- simulation lead to, if the callbacks of the robots leave their parts alone, every call of a step
  -- of the plugin that changes a joint, a light or a parameter addresses an object that was found,
  -- and every other call that changes the simulator sets the target signal of the gripper of one of
  -- the robots that has one. The robots stay placed and keep their handles, and so does the next
  -- handle. The step throws only where the reading of one of the robots throws. Nothing is said of
  -- the objects that are read, or of whether the gripper's link was found.
  pub Reachable-Completes :
      {st : Registry}
      (keeps : (handle : ℕ) (t : Float) (v : Robot × List (List ℕ))
        → (publish handle t v).0.modules ≡ v.0.modules)
      (scene : ℕ → Scene) (yaw time_step : Float)
      → Reachable m publish st
      → Completes m
          (around m publish scene yaw)
          time_step
          st
          (step_plugin m (around m publish scene yaw) time_step st)
  Reachable-Completes {st = st} keeps scene yaw time_step r =
      step_plugin-Completes m (around m publish scene yaw) time_step st
        (Reachable-AllPlaced keeps r) keeps
