-- ===== src/Robot/Schedule.antt =====
-- robomaster_sim/src/robot/robot.cpp: the robot's current actions, at most one of each name, and
-- the states in which earlier ones ended.
-- A key of `std::map<std::string, …>` is the rank of the name in alphabetical order.
pub mod Laws
pub mod Runs
pub mod Bounds
use msde_robotics.Prelude.{
  ℕ, List, [], ◌∷◌, Bool, true, false, not, ◌||◌, Option, none, some, ltb, if◌then◌else◌, get_elem?,
  length,
}
use msde_robotics.Prelude.SortedMap.{lookup, emplace, assign}
use msde_robotics.Wire.Bytes.{◌>>=◌, Float}
use msde_robotics.Robot.Action.{State, started, undefined, rejected, Action, done}

abbrev pub move_name : ℕ
move_name = 0

abbrev pub move_arm_name : ℕ
move_arm_name = 1

abbrev pub move_gimbal_name : ℕ
move_gimbal_name = 2

abbrev pub move_servo_name : ℕ
move_servo_name = 3

abbrev pub play_sound_name : ℕ
play_sound_name = 4

pub record Schedule (B : Type 0) : Type 0 where
  pub actions : List (ℕ × Action B)
  pub previous_action_state : List (ℕ × State)

module _ {B : Type 0} where
  -- What all `submit_action` overloads do once the hardware is known to be there.
  unfoldable pub submit : ℕ → Action B → Schedule B → Schedule B × State
  submit name action s = elim (lookup name s.actions) [
    | some _ ↦ (s, rejected)
    | none ↦
        (record s { actions = emplace name (record action { state = started }) s.actions }, started)
  ]

  unfoldable pub submit_move : Action B → Schedule B → Schedule B × State
  unfolding submit
  submit_move = submit move_name

  unfoldable pub submit_move_arm : Bool → Action B → Schedule B → Schedule B × State
  unfolding submit
  submit_move_arm has_arm action s =
      if not has_arm then (s, rejected) else submit move_arm_name action s

  unfoldable pub submit_play_sound : Action B → Schedule B → Schedule B × State
  unfolding submit
  submit_play_sound = submit play_sound_name

  -- `has_servo` is a `std::array`; `none` is an access behind its end.
  unfoldable pub submit_move_servo :
      List Bool → ℕ → Action B → Schedule B → Option (Schedule B × State)
  unfolding submit
  submit_move_servo has_servo servo_id action s =
      if ltb (length has_servo) servo_id then some (s, rejected) else do
        connected ← get_elem? has_servo servo_id
        some (if not connected then (s, rejected) else submit move_servo_name action s)

  unfoldable pub submit_move_gimbal : Bool → Action B → Schedule B → Schedule B × State
  unfolding submit
  submit_move_gimbal has_gimbal action s =
      if not has_gimbal then (s, rejected) else submit move_gimbal_name action s

  unfoldable pub get_action_state : ℕ → Schedule B → State
  get_action_state name s = elim (lookup name s.actions) [
    | some a ↦ a.state
    | none ↦ elim (lookup name s.previous_action_state) [ some state ↦ state | none ↦ undefined ]
  ]

-- `W` is what the actions act on. `do_step` is the virtual function of the action's class, and
-- `callback` the function that was set on the action.
module _ {B W : Type 0} (do_step : Float → Action B → W → Action B × W)
    (callback : Float → Action B → W → Action B × W) where
  unfoldable pub do_step_cb : Float → Action B → W → Action B × W
  do_step_cb time_step action w =
      let (stepped, w') = do_step time_step action w in callback time_step stepped w'

  -- The loop of `Robot::do_step` over the actions, in the order of their names.
  unfoldable pub run_actions :
      Float
      → List (ℕ × Action B)
      → List (ℕ × State)
      → W
      → List (ℕ × Action B) × List (ℕ × State) × W
  run_actions time_step [] previous w = ([], previous, w)
  run_actions time_step ((name, action) ∷ rest) previous w =
      let (stepped, w') = do_step_cb time_step action w in
      let ended = done stepped in
      let (rest', previous', w'') =
        run_actions time_step rest (if ended then assign name stepped.state previous else previous)
          w' in
      (if ended then rest' else (name, stepped) ∷ rest', previous', w'')

  unfoldable pub step_schedule : Float → Schedule B → W → Schedule B × W
  unfolding run_actions
  step_schedule time_step s w =
      let (actions, previous, w') = run_actions time_step s.actions s.previous_action_state w in
      (record { actions = actions; previous_action_state = previous }, w')
