-- ===== src/Robot/Steps/Mounted.antt =====
-- A whole step of the robot, with its actions, forwards commands only to the parts that it has.
use msde_robotics.Prelude.{ℕ, ◌≡◌, refl, ◌∙◌, subst, List, [], ◌∷◌, length, arith}
use msde_robotics.Wire.Bytes.{Float}
use msde_robotics.Robot.Maths.{Math}
use msde_robotics.Robot.Action.{State, Action}
use msde_robotics.Robot.Schedule.{Schedule, do_step_cb, run_actions, step_schedule}
use msde_robotics.Robot.Machine.{Robot, Readings, with_arm}
use msde_robotics.Robot.Control.{read_chassis, read_modules, read_servos, connected_servos}
use msde_robotics.Robot.Control.Mounted.{AllMounted, act-mounted}
use msde_robotics.Robot.Steps.{sense, act, step_robot}

-- A function of an action that leaves the robot's parts as they are.
abbrev pub KeepsModules :
    {B S : Type 0} → (Float → Action B → Robot × S → Action B × (Robot × S)) → Type 0
KeepsModules {B} {S} f =
    (time_step : Float) (a : Action B) (w : Robot × S) → (f time_step a w).1.0.modules ≡ w.0.modules

module _ {B S : Type 0} (do_step : Float → Action B → Robot × S → Action B × (Robot × S))
    (callback : Float → Action B → Robot × S → Action B × (Robot × S)) where
  run_actions-modules :
      (time_step : Float) (actions : List (ℕ × Action B)) (previous : List (ℕ × State))
      (w : Robot × S)
      → KeepsModules do_step
      → KeepsModules callback
      → (run_actions do_step callback time_step actions previous w).2.0.modules ≡ w.0.modules
  unfolding run_actions do_step_cb
  run_actions-modules time_step [] previous w h k = refl
  run_actions-modules time_step ((name, a) ∷ rest) previous w h k =
      let stepped = do_step time_step a w in
      let called = callback time_step stepped.0 stepped.1 in
      run_actions-modules time_step rest _ called.1 h k
      ∙ k time_step stepped.0 stepped.1
      ∙ h time_step a w

module _ (m : Math) (time_step : Float) (w : Readings) (r : Robot) where
  sense-modules : (sense m time_step w r).modules ≡ r.modules
  unfolding sense read_servos read_modules read_chassis connected_servos with_arm
  sense-modules = ground arith

-- A step of a robot with the slots of three servos whose actions leave its parts alone, and whatever
-- the simulator reads and the servers publish, forwards commands only to connected servos, to the
-- gimbal's lights and the blaster if it has a gimbal, and to the gripper if it has one.
pub step_robot-mounted :
    {B S : Type 0} (m : Math)
    (do_step callback : Float → Action B → Robot × S → Action B × (Robot × S))
    (publish : Float → Robot × S → Robot × S) (time_step : Float) (w : Readings)
    (actions : Schedule B) (r : Robot) (s : S)
    → KeepsModules do_step
    → KeepsModules callback
    → length r.modules.has_servo ≡ 3
    → AllMounted r.modules (step_robot m do_step callback publish time_step w actions (r, s)).2
unfolding step_robot step_schedule
step_robot-mounted m do_step callback publish time_step w actions r s h k servos =
    let sensed = sense m time_step w r in
    let ran =
      run_actions do_step callback time_step actions.actions actions.previous_action_state
        (sensed, s) in
    let same =
      run_actions-modules do_step callback time_step actions.actions actions.previous_action_state
        (sensed, s) h k
      ∙ sense-modules m time_step w r in
    let moved = ran.2.0 in
    subst (λ c. AllMounted c (act m time_step moved).1) same
      (act-mounted m time_step moved (rw same servos)).0

-- Such a step leaves the robot's parts alone too, where its callbacks do.
pub step_robot-modules :
    {B S : Type 0} (m : Math)
    (do_step callback : Float → Action B → Robot × S → Action B × (Robot × S))
    (publish : Float → Robot × S → Robot × S) (time_step : Float) (w : Readings)
    (actions : Schedule B) (r : Robot) (s : S)
    → KeepsModules do_step
    → KeepsModules callback
    → ((t : Float) (v : Robot × S) → (publish t v).0.modules ≡ v.0.modules)
    → length r.modules.has_servo ≡ 3
    → (step_robot m do_step callback publish time_step w actions (r, s)).1.0.modules ≡ r.modules
unfolding step_robot step_schedule
step_robot-modules m do_step callback publish time_step w actions r s h k p servos =
    let sensed = sense m time_step w r in
    let same =
      run_actions-modules do_step callback time_step actions.actions actions.previous_action_state
        (sensed, s) h k
      ∙ sense-modules m time_step w r in
    let moved =
      (run_actions do_step callback time_step actions.actions actions.previous_action_state
        (sensed, s)).2.0 in
    p time_step _ ∙ (act-mounted m time_step moved (rw same servos)).1 ∙ same
