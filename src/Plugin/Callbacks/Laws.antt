-- ===== src/Plugin/Callbacks/Laws.antt =====
-- The actions that scripts start through robomaster_sim/coppeliaSim_plugin/plugin.cpp, and the
-- states that they read.
use msde_robotics.Prelude.{
  ℕ, ◌≡◌, ◌≢◌, refl, ◌∙◌, none, some, ◌==◌, if◌then◌else◌, arith, inl, inr, Option-cases,
}
use msde_robotics.Prelude.SortedMap.{lookup, IsSorted, lookup-assign}
use msde_robotics.Wire.Bytes.{Float}
use msde_robotics.Robot.Maths.{Math}
use msde_robotics.Robot.Geometry.{Pose2D}
use msde_robotics.Robot.Action.{Action, State, started}
use msde_robotics.Robot.Schedule.{Schedule, submit, submit_move, move_name, get_action_state}
use msde_robotics.Robot.Schedule.Laws.{submit_free, submit_taken}
use msde_robotics.Robot.Tasks.{Task, move_base, with_body}
use msde_robotics.Robot.Moves.Base.{move_base_action}
use msde_robotics.Server.Pushes.{Job}
use msde_robotics.Plugin.Registry.{Member, Registry}
use msde_robotics.Plugin.Callbacks.{on_member, start_action, action_name}
use msde_robotics.Plugin.Callbacks.Motion.{get_state, move_to}

-- The state that an action of this name has once one is submitted: that of the action that is there,
-- or started.
abbrev pub submitted : ℕ → Schedule Job → State
submitted name s = elim (lookup name s.actions) [ none ↦ started | some held ↦ held.state ]

submit-submitted :
    (name : ℕ) (job : Action Job) (s : Schedule Job)
    → IsSorted s.actions
    → get_action_state name (submit name job s).0 ≡ submitted name s
unfolding get_action_state
submit-submitted name job s sorted = elim (Option-cases (lookup name s.actions)) [
  | inl free ↦
      let there : lookup name (submit name job s).0.actions
          ≡ some (record job { state = started }) =
        ground (arith, submit_free name name job s sorted free) in
      let read : get_action_state name (submit name job s).0 ≡ started =
        rw (there, get_action_state) refl in
      read ∙ rw (free, submitted) refl
  | inr (held, taken) ↦
      let read : get_action_state name (submit name job s).0 ≡ held.state =
        rw (submit_taken name job held s taken, taken, get_action_state) refl in
      read ∙ rw (taken, submitted) refl
]

if_same : {A : Type 0} (k : ℕ) (x y : A) → (if k == k then x else y) ≡ x
if_same k x y = ground arith

if_other : {A : Type 0} (k j : ℕ) → k ≢ j → (x y : A) → (if k == j then x else y) ≡ y
if_other k j h x y = ground arith

get_state_lem :
    (handle kind name : ℕ) (st : Registry) (member : Member) (state : State)
    → lookup handle st.robots ≡ some member
    → action_name kind ≡ some name
    → get_action_state name member.schedule ≡ state
    → get_state handle kind st ≡ some state
unfolding get_state
get_state_lem handle kind name st member state there named e = rw (there, named, get_state, e) refl

-- Of a robot that is there, `start_action` returns the handle of the action's kind, and that handle
-- leads to the action's state; no other robot changes.
start_action-get_state :
    {B : Type 0} (handle kind name : ℕ) (make : B → Task) (action : Action B)
    (submit_to : Member → Action Job → Schedule Job → Schedule Job × State) (st : Registry)
    (member : Member) (state : State)
    → lookup handle st.robots ≡ some member
    → action_name kind ≡ some name
    → get_action_state name
        (submit_to member
          (with_body (record { task = make action.body; push = none }) action)
          member.schedule).0
      ≡ state
    → let done = start_action handle kind make action submit_to st in
      (get_state handle done.1 done.0 ≡ some state)
      × (done.1 ≡ kind)
      × ((j : ℕ) → handle ≢ j → lookup j done.0.robots ≡ lookup j st.robots)
unfolding start_action
start_action-get_state handle kind name make action submit_to st member state there named found =
    let next =
      (submit_to member (with_body (record { task = make action.body; push = none }) action)
        member.schedule).0 in
    let stored = λ (j : ℕ). lookup-assign j handle (record member { schedule = next }) st.robots in
    rw (there, on_member)
      (
        get_state_lem handle kind name _ (record member { schedule = next }) state
            (stored handle ∙ if_same handle _ _) named found,
        refl,
        λ j other. stored j ∙ if_other handle j other _ _,
      )

-- A script that starts a movement of a robot that is there gets the handle of movements, with which
-- it reads that the action is started, or, if the robot is moving already, the state of the movement
-- that goes on. The other robots stay as they are.
pub move_to-get_state :
    (m : Math) (memory : Action (Pose2D × Pose2D)) (handle : ℕ) (pose : Pose2D)
    (linear_speed angular_speed : Float) (st : Registry) (member : Member)
    → lookup handle st.robots ≡ some member
    → IsSorted member.schedule.actions
    → let done = move_to m memory handle pose linear_speed angular_speed st in
      (get_state handle done.1 done.0 ≡ some (submitted move_name member.schedule))
      × (done.1 ≡ 1)
      × ((j : ℕ) → handle ≢ j → lookup j done.0.robots ≡ lookup j st.robots)
unfolding move_to submit_move action_name
move_to-get_state m memory handle pose linear_speed angular_speed st member there sorted =
    let action = move_base_action m memory pose linear_speed angular_speed in
    let job : Action Job =
      with_body (record { task = move_base action.body; push = none }) action in
    start_action-get_state handle 1 move_name move_base action (λ x. submit_move) st member _ there
      refl (submit-submitted move_name job member.schedule sorted)
