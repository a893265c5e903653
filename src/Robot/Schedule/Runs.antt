-- ===== src/Robot/Schedule/Runs.antt =====
-- One step of the robot, seen through `get_action_state`.
use msde_robotics.Prelude.{ℕ, ◌≡◌, false, none, some, if◌then◌else◌, arith, All}
use msde_robotics.Prelude.SortedMap.{lookup, IsSorted}
use msde_robotics.Wire.Bytes.{Float}
use msde_robotics.Robot.Action.{Action, done}
use msde_robotics.Robot.Schedule.{Schedule, do_step_cb, step_schedule, get_action_state}
use msde_robotics.Robot.Schedule.Laws.{run_present, run_unfinished, run-From}

module _ {B W : Type 0} (do_step : Float → Action B → W → Action B × W)
    (callback : Float → Action B → W → Action B × W) (time_step : Float) where
  -- Where the names ascend, a step advances the action of a name once, from some state v of the
  -- world. Afterwards get_action_state answers the state that this led to, and the action is
  -- still scheduled exactly if it is not done.
  pub get_action_state-step_schedule :
      (name : ℕ) (s : Schedule B) (w : W) (a : Action B)
      → IsSorted s.actions
      → lookup name s.actions ≡ some a
      → (v : W) × let stepped = (do_step_cb do_step callback time_step a v).0 in
          let s' = (step_schedule do_step callback time_step s w).0 in
          (get_action_state name s' ≡ stepped.state)
          × (lookup name s'.actions ≡ (if done stepped then none else some stepped))
  unfolding step_schedule get_action_state
  get_action_state-step_schedule name s w a sorted e =
      let (v, after) =
        run_present do_step callback time_step name 0 s.actions s.previous_action_state w a sorted
          e in
      (v, (ground (arith, after), ground (arith, after)))

  -- Where the names ascend, no action that is done stays scheduled after a step, and the names
  -- stay in their order.
  pub step_schedule_unfinished :
      (s : Schedule B) (w : W)
      → IsSorted s.actions
      → All (λ entry. done entry.1 ≡ false) (step_schedule do_step callback time_step s w).0.actions
        × IsSorted (step_schedule do_step callback time_step s w).0.actions
  unfolding step_schedule
  step_schedule_unfinished s w sorted = (
    run_unfinished do_step callback time_step s.actions s.previous_action_state w,
    run-From do_step callback time_step 0 s.actions s.previous_action_state w sorted,
  )
