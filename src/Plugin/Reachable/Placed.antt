-- ===== src/Plugin/Reachable/Placed.antt =====
-- In every registry that the plugin of robomaster_sim/coppeliaSim_plugin/plugin.cpp reaches the robots
-- are placed.
use Prim.Native.String.{String}
use mathlib.Core.Option.{some-injective}
use msde_robotics.Prelude.{
  ℕ, ◌≡◌, ap, ◌∙◌, subst, inl, inr, List, [], ◌∷◌, Bool, true, false, Option, none, some, ltb, ◌==◌,
  length, arith, Option-cases, Bool-cases, if_split,
}
use msde_robotics.Prelude.SortedMap.{lookup, assign, emplace}
use msde_robotics.Prelude.Int.{ℤ}
use msde_robotics.Wire.Bytes.{Float}
use msde_robotics.Robot.Maths.{Math}
use msde_robotics.Robot.Action.{Action, State}
use msde_robotics.Robot.Schedule.{Schedule}
use msde_robotics.Robot.Tasks.{Task}
use msde_robotics.Robot.Machine.{Robot, Memory}
use msde_robotics.Robot.Setters.{enable_tof, start_streaming, stop_streaming}
use msde_robotics.Server.Pushes.{Job}
use msde_robotics.Plugin.Bridge.{enable_tof_sensor}
use msde_robotics.Plugin.Registry.{
  Member, Registry, Creation, Models, make_member, register, add_robot, interface_of,
}
use msde_robotics.Plugin.Registry.Laws.{List-cases}
use msde_robotics.Plugin.Interfaces.{Sockets, opens}
use msde_robotics.Plugin.Network.{get_ip}
use msde_robotics.Plugin.Callbacks.{on_member, on_robot, start_action}
use msde_robotics.Plugin.Callbacks.Devices.{switch_camera}
use msde_robotics.Plugin.Steps.Forwarded.{IsPlaced}
use msde_robotics.Plugin.Steps.Placed.{Ensures, make_member-IsPlaced}
use msde_robotics.Plugin.Steps.Together.{AllPlaced}

lookup-AllPlaced :
    (k : ℕ) (members : List (ℕ × Member)) {member : Member}
    → AllPlaced members
    → lookup k members ≡ some member
    → IsPlaced member
unfolding lookup
lookup-AllPlaced k [] v = λ e. cc
lookup-AllPlaced k ((j, w) ∷ rest) {member = member} v =
    if_split (λ o. o ≡ some member → IsPlaced member) (j == k) _ _
      (λ _ e. subst IsPlaced (some-injective _ _ e) v.0) (λ _ e. lookup-AllPlaced k rest v.1 e)

assign-AllPlaced :
    (k : ℕ) (member : Member) (members : List (ℕ × Member))
    → IsPlaced member
    → AllPlaced members
    → AllPlaced (assign k member members)
unfolding assign
assign-AllPlaced k member [] p v = (p, tt)
assign-AllPlaced k member ((j, w) ∷ rest) p v =
    if_split AllPlaced (ltb k j) _ _ (λ _. (p, v))
      (λ _.
        if_split AllPlaced (j == k) _ _ (λ _. (p, v.1))
          (λ _. (v.0, assign-AllPlaced k member rest p v.1)))

emplace-AllPlaced :
    (k : ℕ) (member : Member) (members : List (ℕ × Member))
    → IsPlaced member
    → AllPlaced members
    → AllPlaced (emplace k member members)
unfolding emplace
emplace-AllPlaced k member [] p v = (p, tt)
emplace-AllPlaced k member ((j, w) ∷ rest) p v =
    if_split AllPlaced (ltb k j) _ _ (λ _. (p, v))
      (λ _.
        if_split AllPlaced (j == k) _ _ (λ _. v)
          (λ _. (v.0, emplace-AllPlaced k member rest p v.1)))

pub on_member-AllPlaced :
    {A : Type 0} (handle : ℕ) (missing : A) (f : Member → Member × A) (st : Registry)
    → ((member : Member) → IsPlaced member → IsPlaced (f member).0)
    → AllPlaced st.robots
    → AllPlaced (on_member handle missing f st).0.robots
unfolding on_member
on_member-AllPlaced handle missing f st keeps v = elim (Option-cases (lookup handle st.robots)) [
  | inl e ↦ rw (e, on_member) v
  | inr (member, e) ↦
      rw (e, on_member)
        (assign-AllPlaced handle (f member).0 st.robots
          (keeps member (lookup-AllPlaced handle st.robots v e)) v)
]

pub on_robot-AllPlaced :
    (handle : ℕ) (f : Robot → Robot) (st : Registry)
    → ((r : Robot) → (f r).modules.has_servo ≡ r.modules.has_servo)
    → AllPlaced st.robots
    → AllPlaced (on_robot handle f st).robots
unfolding on_robot
on_robot-AllPlaced handle f st same v =
    on_member-AllPlaced handle tt _ st
      (λ member p. record {
        located = p.located;
        servos = ap length (same member.robot) ∙ p.servos;
      })
      v

pub start_action-AllPlaced :
    {B : Type 0} (handle kind : ℕ) (make : B → Task) (action : Action B)
    (submit : Member → Action Job → Schedule Job → Schedule Job × State) (st : Registry)
    → AllPlaced st.robots
    → AllPlaced (start_action handle kind make action submit st).0.robots
unfolding start_action
start_action-AllPlaced handle kind make action submit st v =
    on_member-AllPlaced handle 0 _ st
      (λ member p. record { located = p.located; servos = p.servos }) v

-- A function that ignores a name that it does not know.
pub known :
    {A : Type 0} (o : Option A) (f : A → Registry) (st : Registry)
    → ((a : A) → AllPlaced (f a).robots)
    → AllPlaced st.robots
    → AllPlaced (elim o as (λ (x : Option A). Registry) [ none ↦ st | some a ↦ f a ]).robots
known none f st h v = v
known (some a) f st h v = h a

pub enable_tof-has_servo :
    (index : ℕ) (r : Robot) → (enable_tof index r).0.modules.has_servo ≡ r.modules.has_servo
unfolding enable_tof
enable_tof-has_servo index r = ground arith

pub enable_tof_sensor-IsPlaced :
    (index : ℕ) (sensor : ℤ) (member : Member)
    → IsPlaced member
    → let next = enable_tof_sensor index sensor member.handles member.robot in
      IsPlaced (record member { handles = next.0; robot = next.1 })
unfolding enable_tof_sensor
enable_tof_sensor-IsPlaced index sensor member p =
    let l = p.located in
    let servos = ap length (enable_tof-has_servo index member.robot) ∙ p.servos in
    elim (Bool-cases (ltb index 4)) [
      | inr e ↦ rw (e, enable_tof_sensor) (record { located = l; servos = p.servos })
      | inl e ↦ elim (Bool-cases (enable_tof index member.robot).1) [
        | inr e' ↦ rw (e, e', enable_tof_sensor) (record { located = l; servos = servos })
        | inl e' ↦
            rw (e, e', enable_tof_sensor)
              (record {
                located = record {
                  front_left = l.front_left;
                  front_right = l.front_right;
                  rear_left = l.rear_left;
                  rear_right = l.rear_right;
                  chassis_leds = l.chassis_leds;
                  gimbal_leds = l.gimbal_leds;
                  servos = l.servos;
                };
                servos = servos;
              })
      ]
    ]

pub start_streaming-has_servo :
    (m : Math) (supported : ℕ → ℕ → Bool) (width height : ℕ) (r : Robot)
    → (start_streaming m supported width height r).0.modules.has_servo ≡ r.modules.has_servo
unfolding start_streaming
start_streaming-has_servo m supported width height r = ground arith

-- What `enable_camera` does to the robot.
pub switch_camera-IsPlaced :
    (m : Math) (size : ℤ → ℕ × ℕ) (enabled : Bool) (resolution : String) (member : Member)
    → IsPlaced member
    → IsPlaced (switch_camera m size enabled resolution member).0
unfolding switch_camera stop_streaming
switch_camera-IsPlaced m size true resolution member p = record {
  located = p.located;
  servos = ap length (start_streaming-has_servo m _ _ _ member.robot) ∙ p.servos;
}
switch_camera-IsPlaced m size false resolution member p = record {
  located = p.located;
  servos = p.servos;
}

register-AllPlaced :
    (n : Sockets) (c : Creation) (member : Member) (st : Registry)
    → AllPlaced (emplace st.next_robot_handle member st.robots)
    → AllPlaced (register n c member st).0.robots
unfolding register
register-AllPlaced n c member st v = elim (List-cases c.remote_api_network) [
  | inl e ↦ rw (e, register) v
  | inr (b, bs, e) ↦ elim (Option-cases (get_ip c.remote_api_network)) [
    | inl e' ↦ rw (e, register, e') v
    | inr (found, e') ↦ elim (Bool-cases (opens n (interface_of c found))) [
      | inl o ↦ rw (register, e, e', o) v
      | inr o ↦ rw (register, e, e', o) v
    ]
  ]
]

pub add_robot-AllPlaced :
    (m : Math) (o : Models) (n : Sockets) (memory : Memory) (unset : Float) (c : Creation)
    (st : Registry)
    → AllPlaced st.robots
    → AllPlaced (add_robot m o n memory unset c st).0.robots
unfolding add_robot
add_robot-AllPlaced m o n memory unset c st v =
    elim (Option-cases (make_member m o memory unset c)) [
      | inl e ↦ rw (e, add_robot) v
      | inr (member, e) ↦
          let placed : IsPlaced member =
            subst (Ensures IsPlaced) e (make_member-IsPlaced m o memory unset c) in
          rw (e, add_robot)
            (register-AllPlaced n c member st
              (emplace-AllPlaced st.next_robot_handle member st.robots placed v))
    ]
