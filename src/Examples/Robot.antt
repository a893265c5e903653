-- ===== src/Examples/Robot.antt =====
-- A schedule of actions whose body counts its steps, a sound, a value and the detectors.
use msde_robotics.Prelude.{
  ℕ, ◌+◌, ◌-◌, ◌≡◌, ◌≢◌, ◌⊎◌, refl, [], ◌∷◌, Bool, true, false, not, none, some, ltb, leb, ◌==◌,
  if◌then◌else◌, arith, All,
}
use msde_robotics.Prelude.SortedMap.{IsSorted, lookup}
use msde_robotics.Wire.Bytes.{Float}
use msde_robotics.Robot.Platform.{Arithmetic}
use msde_robotics.Robot.Action.{running, succeed, undefined, is_done, Action, done}
use msde_robotics.Robot.Schedule.{
  Schedule, submit_move_servo, move_name, play_sound_name, do_step_cb, step_schedule,
  get_action_state,
}
use msde_robotics.Robot.Schedule.Runs.{get_action_state-step_schedule, step_schedule_unfinished}
use msde_robotics.Robot.Schedule.Bounds.{submit_move_servo_bounds}
use msde_robotics.Robot.Sound.{Sound, play, play_starts}
use msde_robotics.Robot.Devices.{ControllableValue}

-- Whole numbers in place of floats, where a difference stops at 0, which counts as less than 0.
abbrev whole_numbers : Arithmetic
whole_numbers = record {
  add = λ a b. a + b;
  sub = λ a b. a - b;
  mul = λ a b. a;
  div = λ a b. a;
  lt = leb;
  le = leb;
  eq = λ a b. a == b;
  of_ℕ = λ n. n;
  widen = λ a. a;
  lt_double = ltb;
}

abbrev action : ℕ → Action ℕ
action steps = record {
  state = undefined;
  predicted_duration = 1;
  remaining_duration = 1;
  body = steps;
}

abbrev idle : Schedule ℕ
idle = record { actions = []; previous_action_state = [] }

abbrev busy : Schedule ℕ
busy = record {
  actions = (move_name, action 1) ∷ (play_sound_name, action 0) ∷ [];
  previous_action_state = [];
}

-- The last step is the one with no steps left.
abbrev count_down : Float → Action ℕ → ℕ → Action ℕ × ℕ
count_down time_step a w =
    (record a { state = if a.body == 0 then succeed else running; body = a.body - 1 }, w + 1)

abbrev no_callback : Float → Action ℕ → ℕ → Action ℕ × ℕ
no_callback time_step a w = (a, w)

get_action_state-step_schedule_example :
    (v : ℕ) × let stepped = (do_step_cb count_down no_callback 1 (action 0) v).0 in
      let s' = (step_schedule count_down no_callback 1 busy 0).0 in
      (get_action_state play_sound_name s' ≡ stepped.state)
      × (lookup play_sound_name s'.actions ≡ (if done stepped then none else some stepped))
unfolding lookup
get_action_state-step_schedule_example =
    get_action_state-step_schedule count_down no_callback 1 play_sound_name busy 0 (action 0)
      (omega arith) refl

step_schedule_unfinished_example :
    All (λ entry. done entry.1 ≡ false) (step_schedule count_down no_callback 1 busy 0).0.actions
    × IsSorted (step_schedule count_down no_callback 1 busy 0).0.actions
step_schedule_unfinished_example =
    step_schedule_unfinished count_down no_callback 1 busy 0 (omega arith)

abbrev sound : Action Sound
sound = record {
  state = undefined;
  predicted_duration = 3;
  remaining_duration = 0;
  body = record { sound_id = 1; play_times = 2 };
}

play_starts_example :
    ((play whole_numbers (2 ∷ 2 ∷ 2 ∷ []) sound).1
        + (play whole_numbers (2 ∷ 2 ∷ 2 ∷ []) sound).0.body.play_times
      ≡ 2)
    × ((is_done (play whole_numbers (2 ∷ 2 ∷ 2 ∷ []) sound).0.state ≡ false)
        ⊎ (((play whole_numbers (2 ∷ 2 ∷ 2 ∷ []) sound).1 ≡ 2)
            × ((play whole_numbers (2 ∷ 2 ∷ 2 ∷ []) sound).0.body.play_times ≡ 0)))
play_starts_example = play_starts whole_numbers (2 ∷ 2 ∷ 2 ∷ []) sound refl

abbrev differ : ℕ → ℕ → Bool
differ a b = not (a == b)

abbrev value : ControllableValue ℕ
value = record { current = 3; target = 3; desired = 5; initialized = true }

submit_move_servo_bounds_example :
    ((◌≡◌ {A = ℕ} 3 3) × (submit_move_servo (true ∷ true ∷ false ∷ []) 3 (action 1) idle ≡ none))
    ⊎ ((◌≢◌ {A = ℕ} 3 3) × (submit_move_servo (true ∷ true ∷ false ∷ []) 3 (action 1) idle ≢ none))
submit_move_servo_bounds_example =
    submit_move_servo_bounds (true ∷ true ∷ false ∷ []) 3 (action 1) idle
