-- ===== src/Plugin/Steps/Forwarded.antt =====
-- What the plugin of robomaster_sim/coppeliaSim_plugin forwards: a step of a robot that `add_robot`
-- made calls the simulator for objects that were found.
use msde_robotics.Prelude.{
  ℕ, zero, suc, ◌≡◌, ◌<◌, refl, subst, List, [], ◌∷◌, ◌++◌, true, false, Option, none, some,
  get_elem?, length, All, All-append, arith, inl, inr, Bool-cases, Option-cases, if_split,
}
use mathlib.Core.Option.{some-injective}
use msde_robotics.Prelude.Int.{ℤ, pos, negsuc}
use msde_robotics.Wire.Bytes.{◌>>=◌, Float}
use msde_robotics.Robot.Platform.{zero_f}
use msde_robotics.Robot.Maths.{Math}
use msde_robotics.Robot.Lights.{Color}
use msde_robotics.Robot.Machine.{
  Robot, Readings, Modules, Output, target_wheel_speeds, engage_motors, chassis_led, gimbal_led,
  target_gripper, target_servo_angle, target_servo_speed, servo_mode, servo_enabled,
  blaster_intensity, is_connected,
}
use msde_robotics.Robot.Control.Mounted.{IsMounted, AllMounted}
use msde_robotics.Plugin.Bridge.{
  Handles, Call, set_joint_target_velocity, set_joint_target_position, set_shape_color,
  set_light_parameters, set_int32_param, set_int32_signal, Signal, is_positive, on_servo,
  forward_chassis_led, forward_gimbal_led, forward_blaster_led, forward_output, forward_outputs,
}
use msde_robotics.Plugin.Registry.{Member, is_missing}
use msde_robotics.Plugin.Bridge.Reads.{read_scene}
use msde_robotics.Plugin.Steps.{Surroundings, Stepped, step_member}
use msde_robotics.Robot.Schedule.{Schedule}
use msde_robotics.Server.Pushes.{Job}
use msde_robotics.Server.Pushes.Mounted.{step_robot-AllMounted, step_robot_job-modules}

-- The object of a handle was found.
abbrev pub IsFound : ℤ → Type 0
IsFound h = is_missing h ≡ false

-- The object of a call was found; a signal, which has no object, has the property `Q`.
abbrev pub Addresses : (Signal → Type 0) → Call → Type 0
Addresses Q (set_joint_target_velocity h v) = IsFound h
Addresses Q (set_joint_target_position h v) = IsFound h
Addresses Q (set_shape_color h c) = IsFound h
Addresses Q (set_light_parameters h n c) = IsFound h
Addresses Q (set_int32_param h p v) = IsFound h
Addresses Q (set_int32_signal s v) = Q s

-- The signal of the target of a robot with a gripper.
abbrev pub IsOwn : Modules → Handles → Signal → Type 0
IsOwn k h s = (s ≡ h.gripper_target_signal) × (k.has_gripper ≡ true)

-- The wheels, the four lights of the chassis and those of the gimbal were found, and there are five
-- servos' handles.
pub record IsLocated (h : Handles) : Type 0 where
  pub front_left : IsFound h.wheel_joint_handles.front_left
  pub front_right : IsFound h.wheel_joint_handles.front_right
  pub rear_left : IsFound h.wheel_joint_handles.rear_left
  pub rear_right : IsFound h.wheel_joint_handles.rear_right
  pub chassis_leds : All IsFound h.chassis_led_handles
  pub gimbal_leds : All (All IsFound) h.gimbal_led_handles
  pub servos : length h.servo_handles ≡ 5

abbrev Forwards : (Signal → Type 0) → Option (List Call) → Type 0
Forwards Q none = ⊥
Forwards Q (some calls) = All (Addresses Q) calls

positive-IsFound : (h : ℤ) → is_positive h ≡ true → IsFound h
positive-IsFound (pos n) e = refl
positive-IsFound (negsuc n) e = cc

get_elem?-All :
    {A : Type 0} (P : A → Type 0) (xs : List A) (i : ℕ) {a : A}
    → All P xs
    → get_elem? xs i ≡ some a
    → P a
get_elem?-All P [] i h e = cc
get_elem?-All P (x ∷ xs) zero h e = subst P (some-injective _ _ e) h.0
get_elem?-All P (x ∷ xs) (suc i) h e = get_elem?-All P xs i h.1 e

get_elem?-some :
    {A : Type 0} (xs : List A) (i : ℕ) → i < length xs → (a : A) × (get_elem? xs i ≡ some a)
get_elem?-some [] i h = elim h [ ]
get_elem?-some (x ∷ xs) zero h = (x, refl)
get_elem?-some (x ∷ xs) (suc i) h = get_elem?-some xs i (omega arith)

is_connected-lt : (i : ℕ) (k : Modules) → is_connected i k ≡ true → i < 5
unfolding is_connected
is_connected-lt i k e = ground arith

both :
    (Q : Signal → Type 0) (first rest : Option (List Call))
    → Forwards Q first
    → Forwards Q rest
    → Forwards Q (first >>= λ calls. rest >>= λ more. some (calls ++ more))
both Q none rest f g = elim f [ ]
both Q (some calls) none f g = elim g [ ]
both Q (some calls) (some more) f g = All-append (Addresses Q) calls more f g

module _ (k : Modules) (h : Handles) (v : IsLocated h) where
  on_servo-Forwards :
      (i : ℕ) (call : ℤ → Call)
      → ((servo : ℤ) → IsFound servo → Addresses (IsOwn k h) (call servo))
      → is_connected i k ≡ true
      → Forwards (IsOwn k h) (on_servo h i call)
  unfolding on_servo
  on_servo-Forwards i call found e =
      let below : i < length h.servo_handles = omega (arith, is_connected-lt i k e, v.servos) in
      let (servo, there) = get_elem?-some h.servo_handles i below in
      rw (there, on_servo)
        (elim (Bool-cases (is_positive servo)) [
          | inl e' ↦ rw e' (found servo (positive-IsFound servo e'), tt)
          | inr e' ↦ rw e' tt
        ])

  chassis-Addresses : (i : ℕ) (c : Color) → All (Addresses (IsOwn k h)) (forward_chassis_led h i c)
  unfolding forward_chassis_led
  chassis-Addresses i c = elim (Option-cases (get_elem? h.chassis_led_handles i)) [
    | inl e ↦ rw (e, forward_chassis_led) tt
    | inr (led, e) ↦
        rw (e, forward_chassis_led)
          (get_elem?-All IsFound h.chassis_led_handles i v.chassis_leds e, tt)
  ]

  gimbal-Addresses :
      (i j : ℕ) (c : Color) → All (Addresses (IsOwn k h)) (forward_gimbal_led h i j c)
  unfolding forward_gimbal_led
  gimbal-Addresses i j c = elim (Option-cases (get_elem? h.gimbal_led_handles i)) [
    | inl e ↦ rw (e, forward_gimbal_led) tt
    | inr (parts, e) ↦
        let found = get_elem?-All (All IsFound) h.gimbal_led_handles i v.gimbal_leds e in
        elim (Option-cases (get_elem? parts j)) [
          | inl e' ↦ rw (e, e', forward_gimbal_led) tt
          | inr (led, e') ↦
              rw (e, e', forward_gimbal_led) (get_elem?-All IsFound parts j found e', tt)
        ]
  ]

  blaster-Addresses :
      (m : Math) (value : Float) → All (Addresses (IsOwn k h)) (forward_blaster_led m h value)
  unfolding forward_blaster_led
  blaster-Addresses m value = elim (Bool-cases (is_positive h.blaster_light_handle)) [
    | inl e ↦
        let found = positive-IsFound h.blaster_light_handle e in
        rw e (
          if_split (All (Addresses (IsOwn k h))) (m.fp.eq value zero_f) _ _ (λ _. (found, tt))
            (λ _. (found, tt)))
    | inr e ↦ rw e tt
  ]

  module _ (m : Math) where
    forward_output-Forwards :
        (o : Output) → IsMounted k o → Forwards (IsOwn k h) (forward_output m h o)
    unfolding forward_output
    forward_output-Forwards (target_wheel_speeds speeds) e =
        (v.front_left, (v.front_right, (v.rear_left, (v.rear_right, tt))))
    forward_output-Forwards (engage_motors b) e =
        (v.front_left, (v.front_right, (v.rear_left, (v.rear_right, tt))))
    forward_output-Forwards (chassis_led i c) e = chassis-Addresses i c
    forward_output-Forwards (gimbal_led i j c) e = gimbal-Addresses i j c
    forward_output-Forwards (target_gripper s p) e = ((refl, e), tt)
    forward_output-Forwards (target_servo_angle i a) e = on_servo-Forwards i _ (λ servo f. f) e
    forward_output-Forwards (target_servo_speed i a) e = on_servo-Forwards i _ (λ servo f. f) e
    forward_output-Forwards (servo_mode i a) e = on_servo-Forwards i _ (λ servo f. f) e
    forward_output-Forwards (servo_enabled i a) e = on_servo-Forwards i _ (λ servo f. f) e
    forward_output-Forwards (blaster_intensity value) e = blaster-Addresses m value

    forward_outputs-Forwards :
        (os : List Output) → AllMounted k os → Forwards (IsOwn k h) (forward_outputs m h os)
    unfolding forward_outputs
    forward_outputs-Forwards [] e = tt
    forward_outputs-Forwards (o ∷ os) e =
        both (IsOwn k h) (forward_output m h o) (forward_outputs m h os)
          (forward_output-Forwards o e.0) (forward_outputs-Forwards os e.1)

-- A robot of the plugin with the slots of three servos, whose wheels and lights were found.
pub record IsPlaced (member : Member) : Type 0 where
  pub located : IsLocated member.handles
  pub servos : length member.robot.modules.has_servo ≡ 3

-- What a step of a robot gives: the calls that change the simulator address objects that were found,
-- or are for the signal of its gripper, and the robot stays placed; an exception is one of the readings.
abbrev pub Addressed : Member → Option Readings → Option (Stepped Member) → Type 0
Addressed before readings none = readings ≡ none
Addressed before readings (some (member, calls, frames)) =
    All (Addresses (IsOwn before.robot.modules before.handles)) calls × IsPlaced member

stepped :
    (member : Member) (robot : Robot) (schedule : Schedule Job) (frames : List (List ℕ))
    (calls : Option (List Call)) (readings : Readings)
    → IsLocated member.handles
    → length robot.modules.has_servo ≡ 3
    → Forwards (IsOwn member.robot.modules member.handles) calls
    → Addressed member (some readings) (
        calls >>= λ done. some (record member { robot = robot; schedule = schedule }, done, frames))
stepped member robot schedule frames none readings located servos f = elim f [ ]
stepped member robot schedule frames (some calls) readings located servos f =
    (f, record { located = located; servos = servos })

-- In a step of a placed robot whose callbacks leave its parts alone, whatever its actions, a call that
-- changes the simulator addresses an object that was found, or sets the signal of the gripper of a
-- robot that has one; and the robot stays placed. The step throws only where the reading of the
-- simulator throws.
pub step_member-Addressed :
    (m : Math) (s : Surroundings) (time_step : Float) (handle : ℕ) (member : Member)
    → IsPlaced member
    → ((t : Float) (v : Robot × List (List ℕ))
        → (s.interface_step handle t v).0.modules ≡ v.0.modules)
    → Addressed member
        (read_scene m s.yaw (s.scene handle) member.handles member.sight member.robot)
        (step_member m s time_step handle member)
unfolding step_member
step_member-Addressed m s time_step handle member v keeps =
    elim (Option-cases
      (read_scene m s.yaw (s.scene handle) member.handles member.sight member.robot)) [
        | inl e ↦ rw (e, step_member) refl
        | inr (readings, e) ↦
            let mounted =
              step_robot-AllMounted m (s.interface_step handle) time_step readings member.schedule
                member.robot [] v.servos in
            let same =
              step_robot_job-modules m (s.interface_step handle) time_step readings member.schedule
                member.robot [] keeps v.servos in
            rw (e, step_member)
              (stepped member _ _ _ _ readings v.located (rw same v.servos) (
                forward_outputs-Forwards member.robot.modules member.handles v.located m _ mounted))
      ]
