-- ===== src/Plugin/Callbacks/Motion.antt =====
-- robomaster_sim/coppeliaSim_plugin/plugin.cpp: the scripts' functions about the chassis and the
-- actions.
use Prim.Native.String.{String}
use text.Mathlib.Text.{◌==◌ as str_eq}
use msde_robotics.Prelude.{ℕ, Bool, Option, none, some, if◌then◌else◌}
use msde_robotics.Prelude.SortedMap.{lookup, or_else}
use msde_robotics.Wire.Bytes.{Float}
use msde_robotics.Robot.Maths.{Math}
use msde_robotics.Robot.Geometry.{
  Attitude, Odometry, Vector3, Pose2D, Twist2D, GimbalValues, WheelValues,
}
use msde_robotics.Robot.Action.{
  Action, State, undefined, rejected, started, running, succeed, failed,
}
use msde_robotics.Robot.Gimbals.{Frame}
use msde_robotics.Robot.Wheels.{BaseFrame, get_twist, set_target_velocity, set_wheel_target}
use msde_robotics.Robot.Machine.{free, gimbal_lead, chassis_lead}
use msde_robotics.Robot.Schedule.{
  get_action_state, submit_move, submit_move_arm, submit_move_gimbal, submit_move_servo,
}
use msde_robotics.Robot.Tasks.{move_base, move_arm, move_servo, move_gimbal}
use msde_robotics.Robot.Moves.Base.{move_base_action}
use msde_robotics.Robot.Moves.{move_arm_action, move_servo_action, move_gimbal_action}
use msde_robotics.Robot.Setters
use msde_robotics.Plugin.Registry.{Registry}
use msde_robotics.Plugin.Callbacks.{
  on_robot, of_robot, start_action, move_handle, move_arm_handle, move_gimbal_handle,
  move_servo_handle, action_name, gimbal_frame,
}

unfoldable pub get_base_twist : ℕ → Registry → Option Twist2D
unfolding of_robot
get_base_twist handle = of_robot handle (λ r. get_twist BaseFrame.odom r.chassis)

unfoldable pub get_wheel_speeds : ℕ → Registry → Option (WheelValues Float)
unfolding of_robot
get_wheel_speeds handle = of_robot handle (λ r. r.chassis.wheel_speeds.current)

unfoldable pub set_target_wheel_speeds : ℕ → WheelValues Float → Registry → Registry
unfolding on_robot
set_target_wheel_speeds handle speeds =
    on_robot handle (λ r. record r { chassis = set_wheel_target speeds r.chassis })

unfoldable pub get_odometry : ℕ → Registry → Option Odometry
unfolding of_robot
get_odometry handle = of_robot handle (λ r. r.chassis.odometry)

unfoldable pub get_attitude : ℕ → Registry → Option Attitude
unfolding of_robot
get_attitude handle = of_robot handle (λ r. r.chassis.attitude)

-- The angular velocity and the acceleration.
unfoldable pub get_imu : ℕ → Registry → Option (Vector3 × Vector3)
unfolding of_robot
get_imu handle = of_robot handle (λ r. (r.chassis.imu.angular_velocity, r.chassis.imu.acceleration))

unfoldable pub get_arm_position : ℕ → Registry → Option Vector3
unfolding of_robot
get_arm_position handle = of_robot handle (λ r. r.arm_position)

-- The word for a state.
unfoldable pub status : State → String
status failed = "failed"
status rejected = "rejected"
status running = "running"
status succeed = "succeed"
status undefined = "undefined"
status started = "started"

unfoldable pub get_state : ℕ → ℕ → Registry → Option State
get_state handle action st = elim (lookup handle st.robots) [
  | none ↦ none
  | some member ↦ elim (action_name action) [
    | none ↦ some undefined
    | some name ↦ some (get_action_state name member.schedule)
  ]
]

unfoldable pub get_status : ℕ → ℕ → Registry → Option String
unfolding get_state status
get_status handle action st = elim (get_state handle action st) [
  | none ↦ none
  | some state ↦ some (status state)
]

unfoldable pub move_arm_to : Action Float → ℕ → Float → Float → Bool → Registry → Registry × ℕ
unfolding start_action
move_arm_to memory handle x z absolute =
    start_action handle move_arm_handle move_arm (move_arm_action memory x z absolute)
      (λ member. submit_move_arm member.robot.modules.has_arm)

unfoldable pub move_gimbal_to :
    Action (GimbalValues Float)
    → ℕ
    → GimbalValues Float
    → GimbalValues Float
    → GimbalValues String
    → Registry
    → Registry × ℕ
unfolding start_action
move_gimbal_to memory handle target speed frame =
    let frames : GimbalValues Frame = record {
      yaw = gimbal_frame frame.yaw;
      pitch = gimbal_frame frame.pitch;
    } in
    start_action handle move_gimbal_handle move_gimbal
      (move_gimbal_action memory target speed frames)
      (λ member. submit_move_gimbal member.robot.modules.has_gimbal)

-- A number behind the end of the flags, undefined in the source, is rejected.
unfoldable pub move_servo_to : Action Float → ℕ → ℕ → Float → Registry → Registry × ℕ
unfolding start_action
move_servo_to memory handle servo angle =
    start_action handle move_servo_handle move_servo (move_servo_action memory servo angle)
      (λ member job s.
        or_else (submit_move_servo member.robot.modules.has_servo servo job s) (s, rejected))

-- An unknown mode is ignored.
unfoldable pub named_mode : String → Option ℕ
named_mode mode =
    if str_eq mode "free"
    then some free
    else if str_eq mode "gimbal_lead"
    then some gimbal_lead
    else if str_eq mode "chassis_lead"
    then some chassis_lead
    else none

module _ (m : Math) where
  unfoldable pub set_target_twist : ℕ → Twist2D → Registry → Registry
  unfolding on_robot
  set_target_twist handle twist =
      on_robot handle (λ r. record r { chassis = set_target_velocity m twist r.chassis })

  unfoldable pub move_to :
      Action (Pose2D × Pose2D) → ℕ → Pose2D → Float → Float → Registry → Registry × ℕ
  unfolding start_action
  move_to memory handle pose linear_speed angular_speed =
      start_action handle move_handle move_base
        (move_base_action m memory pose linear_speed angular_speed) (λ member. submit_move)

  unfoldable pub set_robot_mode : ℕ → String → Registry → Registry
  unfolding on_robot named_mode
  set_robot_mode handle mode st = elim (named_mode mode) [
    | none ↦ st
    | some n ↦ on_robot handle (Setters.set_mode m n) st
  ]
