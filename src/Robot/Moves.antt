-- ===== src/Robot/Moves.antt =====
-- robomaster_sim/include/robot/action.hpp and src/robot/action.cpp: the actions that move the
-- robot. Each `do_step` acts on the robot that its action belongs to.
pub mod Base
pub mod Laws
use msde_robotics.Prelude.{
  ℕ, Bool, true, false, not, ◌&&◌, ◌||◌, if◌then◌else◌, Option, none, some, get_elem?,
}
use msde_robotics.Wire.Bytes.{Float}
use msde_robotics.Robot.Platform.{Double, zero_f, one_f}
use msde_robotics.Robot.Maths.{Math, clamp, min_f, max_f, normalize, half_f}
use msde_robotics.Robot.Geometry.{
  Vector3, Pose2D, Twist2D, GimbalValues, zero_pose, zero_twist, zero_vector, gimbal_values,
  add_vector, compose, relative_to, pose_distance, pose_norm,
}
use msde_robotics.Robot.Action.{State, running, succeed, started, undefined, Action}
use msde_robotics.Robot.Sound.{Sound, play_sound_action, step_sound}
use msde_robotics.Robot.Servos.{Servo, servo_distance}
use msde_robotics.Robot.Gimbals.{
  Gimbal, Frame, fixed, attitude, gimbal_distance, fixed_angles, reset_target_speeds,
  set_target_angles, set_control_speeds, reset_target_attitude,
}
use msde_robotics.Robot.Wheels.{set_target_velocity}
use msde_robotics.Robot.Arms.{Arm, update_arm_control, arm_distance}
use msde_robotics.Robot.Machine.{Robot, arm_of, with_arm, update_servo}

pub record MoveBase : Type 0 where
  pub goal : Pose2D
  pub goal_odom : Pose2D
  pub current : Pose2D
  pub linear_speed : Float
  pub angular_speed : Float

pub record MoveArm : Type 0 where
  pub goal_position : Vector3
  pub absolute : Bool

pub record MoveServo : Type 0 where
  pub servo_id : ℕ
  pub target_angle : Float
  pub current_angle : Float
  pub time_left : Float

pub record MoveGimbal : Type 0 where
  pub target : GimbalValues Float
  pub current : GimbalValues Float
  pub speed : GimbalValues Float
  pub frame : GimbalValues Frame

abbrev pub is_started : State → Bool
is_started started = true
is_started _ = false

abbrev pub is_running : State → Bool
is_running running = true
is_running _ = false

-- The state after the first test of every `do_step`.
abbrev pub begun : State → State
begun started = running
begun running = running
begun s = s

-- What the base class's constructor and a subclass leave; the durations that it does not set are
-- those of `memory`.
unfoldable pub new_action : {B C : Type 0} → Action C → B → Action B
new_action memory body = record {
  state = undefined;
  predicted_duration = memory.predicted_duration;
  remaining_duration = memory.remaining_duration;
  body = body;
}

-- MAX_DURATION is 5.0f; `current_angle` is not set.
unfoldable pub move_servo_action : Action Float → ℕ → Float → Action MoveServo
unfolding new_action
move_servo_action memory servo_id target_angle = new_action memory (record {
  servo_id = servo_id;
  target_angle = target_angle;
  current_angle = memory.body;
  time_left = 0x40a0_0000;
})

unfoldable pub move_arm_action : Action Float → Float → Float → Bool → Action MoveArm
unfolding new_action
move_arm_action memory x z absolute =
    new_action memory
      (record { goal_position = record { x = x; y = zero_f; z = z }; absolute = absolute })

unfoldable pub move_gimbal_action :
    Action (GimbalValues Float)
    → GimbalValues Float
    → GimbalValues Float
    → GimbalValues Frame
    → Action MoveGimbal
unfolding new_action
move_gimbal_action memory target speed frame =
    new_action memory
      (record { target = target; current = memory.body; speed = speed; frame = frame })

module _ (m : Math) where
  open m use {fp, neg, abs}
  open fp use {add, sub, mul, div, lt, widen, lt_double}

  -- The double 0.005.
  abbrev nearly_there : Float → Bool
  nearly_there left = lt_double (widen left) 0x3f74_7ae1_47ae_147b

  abbrev arm_of_robot : Robot → Option Arm
  arm_of_robot r = elim (get_elem? r.servos 0) [
    | none ↦ none
    | some left ↦ elim (get_elem? r.servos 1) [
      | none ↦ none
      | some right ↦ some (arm_of left right r.arm_position)
    ]
  ]

  abbrev arm_left : Option Arm → Float
  arm_left none = zero_f
  arm_left (some a) = arm_distance m a

  unfoldable pub step_move_arm : Float → Action MoveArm → Robot → Action MoveArm × Robot
  step_move_arm time_step a r =
      let first = is_started a.state in
      let goal =
        if first && not a.body.absolute
        then add_vector m r.arm_position a.body.goal_position
        else a.body.goal_position in
      let next = record a {
        state = begun a.state;
        body = record a.body { goal_position = goal };
      } in
      let moved = with_arm (update_arm_control m goal) r in
      let left = arm_left (arm_of_robot moved) in
      let reached = nearly_there left in
      if not (is_running next.state) then (next, r) else (
        record next {
          state = if reached then succeed else running;
          remaining_duration = if reached then zero_f else left;
          predicted_duration = if first then left else a.predicted_duration;
        },
        moved,
      )

  -- The step on the servo that the action's index names.
  unfoldable pub step_move_servo_on : Float → Action MoveServo → Servo → Action MoveServo × Servo
  step_move_servo_on time_step a s =
      let b = a.body in
      let first = is_started a.state in
      let aimed =
        if first then record s { angle = record s.angle { desired = b.target_angle } } else s in
      let left = servo_distance m aimed in
      let body = record b {
        current_angle = s.angle.current;
        time_left = sub b.time_left time_step;
      } in
      let next = record a {
        state = begun a.state;
        predicted_duration = if first then left else a.predicted_duration;
        body = body;
      } in
      let finished = nearly_there left || lt b.time_left zero_f in
      if not (is_running next.state) then (next, aimed) else (
        record next {
          state = if finished then succeed else running;
          remaining_duration = if finished then zero_f else left;
        },
        aimed,
      )

  -- An index behind the end of `servos` is not one that a servo action is accepted with, but for
  -- the first one, which reads behind the end of `has_servo`; here the step then does nothing.
  unfoldable pub step_move_servo : Float → Action MoveServo → Robot → Action MoveServo × Robot
  unfolding step_move_servo_on
  step_move_servo time_step a r = elim (get_elem? r.servos a.body.servo_id) [
    | none ↦ (a, r)
    | some s ↦
        let stepped = step_move_servo_on time_step a s in
        (stepped.0, record r { servos = update_servo a.body.servo_id (λ t. stepped.1) r.servos })
  ]

  abbrev start_gimbal : MoveGimbal → GimbalValues Float → Gimbal → Gimbal
  start_gimbal b target g =
      set_control_speeds m b.speed
        (set_target_angles m target (reset_target_speeds (record g { performing_action = true })))

  -- The double 0.02.
  unfoldable pub step_move_gimbal_on : Action MoveGimbal → Gimbal → Action MoveGimbal × Gimbal
  step_move_gimbal_on a g =
      let b = a.body in
      let first = is_started a.state in
      let target = if first then fixed_angles m b.target b.frame g else b.target in
      let aimed = if first then start_gimbal b target g else g in
      let left = gimbal_distance m aimed in
      let reached = lt_double (widen left) 0x3f94_7ae1_47ae_147b in
      let next = record a {
        state = begun a.state;
        predicted_duration = if first then left else a.predicted_duration;
        body = record b { target = target; current = gimbal_values (attitude m fixed g) };
      } in
      if not (is_running next.state)
      then (next, aimed)
      else if reached
      then (
        record next { state = succeed; remaining_duration = zero_f },
        record (reset_target_attitude m aimed) { performing_action = false },
      )
      else (record next { remaining_duration = left }, aimed)

  unfoldable pub step_move_gimbal : Float → Action MoveGimbal → Robot → Action MoveGimbal × Robot
  unfolding step_move_gimbal_on
  step_move_gimbal time_step a r =
      let stepped = step_move_gimbal_on a r.gimbal in (stepped.0, record r { gimbal = stepped.1 })
