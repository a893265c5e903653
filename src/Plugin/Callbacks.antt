-- ===== src/Plugin/Callbacks.antt =====
-- robomaster_sim/coppeliaSim_plugin/plugin.cpp: the functions that scripts call on one robot. Each
-- takes the plugin's handle of the robot; `none` is an output that the function leaves as it is.
pub mod Motion
pub mod Devices
pub mod Vision
pub mod Laws
use Prim.Native.String.{String}
use text.Mathlib.Text.{◌==◌ as str_eq}
use msde_robotics.Prelude.{ℕ, List, [], ◌∷◌, Option, none, some, ◌==◌, if◌then◌else◌}
use msde_robotics.Prelude.SortedMap.{lookup, assign}
use msde_robotics.Robot.Action.{Action, State}
use msde_robotics.Robot.Gimbals.{Frame}
use msde_robotics.Robot.Machine.{Robot}
use msde_robotics.Robot.Schedule.{
  Schedule, move_name, move_arm_name, move_gimbal_name, move_servo_name, play_sound_name,
}
use msde_robotics.Robot.Tasks.{Task, with_body}
use msde_robotics.Server.Pushes.{Job}
use msde_robotics.Plugin.Registry.{Member, Registry}

-- `if (_robots.count(in->handle))` and what follows it, with its result, or `missing`.
unfoldable pub on_member : {A : Type 0} → ℕ → A → (Member → Member × A) → Registry → Registry × A
on_member handle missing f st = elim (lookup handle st.robots) [
  | none ↦ (st, missing)
  | some member ↦
      let next = f member in (record st { robots = assign handle next.0 st.robots }, next.1)
]

-- A function that changes the robot only.
unfoldable pub on_robot : ℕ → (Robot → Robot) → Registry → Registry
unfolding on_member
on_robot handle f st =
    (on_member handle tt (λ member. (record member { robot = f member.robot }, tt)) st).0

-- A function that reads the robot.
unfoldable pub of_robot : {A : Type 0} → ℕ → (Robot → A) → Registry → Option A
of_robot handle f st = elim (lookup handle st.robots) [
  | none ↦ none
  | some member ↦ some (f member.robot)
]

-- An action of a script has no push. The state of `submit_action` is ignored, and the handle of the
-- kind of action is returned; without a robot it is 0.
unfoldable pub start_action :
    {B : Type 0}
    → ℕ
    → ℕ
    → (B → Task)
    → Action B
    → (Member → Action Job → Schedule Job → Schedule Job × State)
    → Registry
    → Registry × ℕ
unfolding on_member
start_action handle kind make action submit st =
    let job = with_body (record { task = make action.body; push = none }) action in
    on_member handle 0
      (λ member. (record member { schedule = (submit member job member.schedule).0 }, kind)) st

-- The values of `action_handles`.
abbrev pub move_handle : ℕ
move_handle = 1

abbrev pub move_arm_handle : ℕ
move_arm_handle = 2

abbrev pub move_gimbal_handle : ℕ
move_gimbal_handle = 3

abbrev pub play_sound_handle : ℕ
play_sound_handle = 4

abbrev pub move_servo_handle : ℕ
move_servo_handle = 5

-- The name of the action with this handle; `none` is the empty name, which no action has.
unfoldable pub action_name : ℕ → Option ℕ
action_name handle =
    if handle == move_handle
    then some move_name
    else if handle == move_arm_handle
    then some move_arm_name
    else if handle == move_gimbal_handle
    then some move_gimbal_name
    else if handle == play_sound_handle
    then some play_sound_name
    else if handle == move_servo_handle
    then some move_servo_name
    else none

unfoldable pub gimbal_frame : String → Frame
gimbal_frame name =
    if str_eq name "chassis"
    then Frame.chassis
    else if str_eq name "fixed"
    then Frame.fixed
    else Frame.gimbal
