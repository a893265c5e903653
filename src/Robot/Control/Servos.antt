-- ===== src/Robot/Control/Servos.antt =====
-- The simulator's servos follow the robot's: what they hold after the outputs of a step.
use msde_robotics.Prelude.{
  ℕ, ◌≡◌, ◌⊎◌, inl, inr, refl, sym, ◌∙◌, List, [], ◌∷◌, ◌++◌, Bool, true, false, ◌==◌,
  if◌then◌else◌, ==_iff, Bool-cases, arith,
}
use msde_robotics.Wire.Bytes.{Float}
use msde_robotics.Robot.Maths.{Math}
use msde_robotics.Robot.Devices.{ControllableValue, check}
use msde_robotics.Robot.Servos.{
  ServoMode, Servo, differ_mode, differ_bool, is_speed, desired_speed, will_pass_limits,
}
use msde_robotics.Robot.Machine.{
  Output, target_servo_angle, target_servo_speed, servo_mode, servo_enabled,
}
use msde_robotics.Robot.Control.{forward_if, control_enabled_servo, control_servo, differ_float}

-- What the simulator keeps of a servo.
pub record Motor : Type 0 where
  pub enabled : Bool
  pub mode : ServoMode
  pub speed : Float
  pub angle : Float

pub receive : ℕ → Output → Motor → Motor
receive i (servo_enabled j v) a = if j == i then record a { enabled = v } else a
receive i (servo_mode j v) a = if j == i then record a { mode = v } else a
receive i (target_servo_speed j v) a = if j == i then record a { speed = v } else a
receive i (target_servo_angle j v) a = if j == i then record a { angle = v } else a
receive i _ a = a

pub receive_all : ℕ → List Output → Motor → Motor
unfolding receive
receive_all i [] a = a
receive_all i (o ∷ rest) a = receive_all i rest (receive i o a)

abbrev pub Holds : {T : Type 0} → T → ControllableValue T → Type 0
Holds v c = (c.initialized ≡ false) ⊎ (v ≡ c.target)

pub record Agrees (a : Motor) (s : Servo) : Type 0 where
  pub enabled : Holds a.enabled s.enabled
  pub mode : Holds a.mode s.mode
  pub angle : Holds a.angle s.angle
  pub speed : a.speed ≡ s.speed.target

module _ {T : Type 0} (differ : T → T → Bool) (v : T) (c : ControllableValue T) where
  check_held :
      Holds v c
      → (if (check differ c).1 then (check differ c).0.target else v) ≡ (check differ c).0.target
  unfolding check
  check_held (inl e) = ground arith
  check_held (inr e) = ground arith

self_index : (i : ℕ) → (i == i) ≡ true
self_index i = (==_iff i i).1 refl

receive_all-append :
    (i : ℕ) (os os' : List Output) (a : Motor)
    → receive_all i (os ++ os') a ≡ receive_all i os' (receive_all i os a)
unfolding receive_all
receive_all-append i [] os' a = refl
receive_all-append i (o ∷ os) os' a = receive_all-append i os os' (receive i o a)

receive_enabled :
    (i : ℕ) (b v : Bool) (a : Motor)
    → receive_all i (forward_if b (servo_enabled i v)) a
      ≡ record a { enabled = if b then v else a.enabled }
unfolding receive_all receive
receive_enabled i true v a = rw (self_index i) refl
receive_enabled i false v a = refl

receive_mode :
    (i : ℕ) (b : Bool) (v : ServoMode) (a : Motor)
    → receive_all i (forward_if b (servo_mode i v)) a ≡ record a { mode = if b then v else a.mode }
unfolding receive_all receive
receive_mode i true v a = rw (self_index i) refl
receive_mode i false v a = refl

receive_angle :
    (i : ℕ) (b : Bool) (v : Float) (a : Motor)
    → receive_all i (forward_if b (target_servo_angle i v)) a
      ≡ record a { angle = if b then v else a.angle }
unfolding receive_all receive
receive_angle i true v a = rw (self_index i) refl
receive_angle i false v a = refl

receive_speed :
    (i : ℕ) (v : Float) (a : Motor)
    → receive_all i (target_servo_speed i v ∷ []) a ≡ record a { speed = v }
unfolding receive_all receive
receive_speed i v a = rw (self_index i) refl

check_bool : (c : ControllableValue Bool) → (check differ_bool c).0.target ≡ c.desired
unfolding check
check_bool c = ground arith

check_mode : (c : ControllableValue ServoMode) → (check differ_mode c).0.target ≡ c.desired
unfolding check
check_mode c = ground arith

check_initialized :
    {T : Type 0} (differ : T → T → Bool) (c : ControllableValue T)
    → (check differ c).0.initialized ≡ true
unfolding check
check_initialized differ c = ground arith

module _ (m : Math) (time_step : Float) (i : ℕ) where
  open m use {fp}
  open fp use {eq}

  -- Equal, or equal to the floating-point unit.
  abbrev pub Matches : Float → Float → Type 0
  Matches v w = (v ≡ w) ⊎ (eq v w ≡ true)

  -- What a motor holds behind the outputs for a servo that is enabled.
  follow_speed :
      (a : Motor) (s : Servo)
      → Agrees a s
      → is_speed (check differ_mode s.mode).0.target ≡ true
      → let next = control_enabled_servo m time_step i s in
        receive_all i next.1 a ≡ record a { mode = next.0.mode.target; speed = next.0.speed.target }
  unfolding control_enabled_servo
  follow_speed a s h e =
      let moded = record s { mode = (check differ_mode s.mode).0 } in
      let held = check_held differ_mode a.mode s.mode h.mode in
      elim (Bool-cases (differ_float m s.speed.target (desired_speed m time_step moded))) [
        | inl d ↦ rw (e, d, receive_all-append, receive_mode, receive_speed, held) refl
        | inr d ↦ rw (e, d, receive_mode, held, sym h.speed) refl
      ]

  follow_angle :
      (a : Motor) (s : Servo)
      → Agrees a s
      → is_speed (check differ_mode s.mode).0.target ≡ false
      → let next = control_enabled_servo m time_step i s in
        receive_all i next.1 a ≡ record a { mode = next.0.mode.target; angle = next.0.angle.target }
  unfolding control_enabled_servo
  follow_angle a s h e =
      let held = check_held differ_mode a.mode s.mode h.mode in
      let held_angle = check_held (differ_float m) a.angle s.angle h.angle in
      rw (e, receive_all-append, receive_mode, receive_angle, held, held_angle) refl

  Followed : Motor → Servo → Servo → Type 0
  Followed a s next =
      Agrees a next
      × (a.mode ≡ s.mode.desired)
      × (is_speed s.mode.desired ≡ true → Matches a.speed (desired_speed m time_step next))
      × (is_speed s.mode.desired ≡ false → Matches a.angle s.angle.desired)

  eq_of_differ : (v w : Float) → differ_float m v w ≡ false → eq v w ≡ true
  eq_of_differ v w h = ground arith

  check-Matches :
      (c : ControllableValue Float) → Matches (check (differ_float m) c).0.target c.desired
  unfolding check
  check-Matches c = ground arith

  Followed-speed :
      (a : Motor) (s : Servo)
      → Agrees a s
      → is_speed (check differ_mode s.mode).0.target ≡ true
      → let next = control_enabled_servo m time_step i s in
        Followed (receive_all i next.1 a) s next.0
  unfolding control_enabled_servo Followed desired_speed will_pass_limits
  Followed-speed a s h e =
      let wanted = desired_speed m time_step (record s { mode = (check differ_mode s.mode).0 }) in
      elim (Bool-cases (differ_float m s.speed.target wanted)) [
        | inl d ↦
            rw (follow_speed a s h e, e, d)
              (
                record { enabled = h.enabled; mode = inr refl; angle = h.angle; speed = refl },
                check_mode s.mode,
                λ q. inl refl,
                λ q. absurd (cc (q, e, check_mode s.mode)),
              )
        | inr d ↦
            rw (follow_speed a s h e, e, d)
              (
                record { enabled = h.enabled; mode = inr refl; angle = h.angle; speed = refl },
                check_mode s.mode,
                λ q. inr (eq_of_differ _ _ d),
                λ q. absurd (cc (q, e, check_mode s.mode)),
              )
      ]

  Followed-angle :
      (a : Motor) (s : Servo)
      → Agrees a s
      → is_speed (check differ_mode s.mode).0.target ≡ false
      → let next = control_enabled_servo m time_step i s in
        Followed (receive_all i next.1 a) s next.0
  unfolding control_enabled_servo Followed
  Followed-angle a s h e =
      rw (follow_angle a s h e, e)
        (
          record { enabled = h.enabled; mode = inr refl; angle = inr refl; speed = h.speed },
          check_mode s.mode,
          λ q. absurd (cc (q, e, check_mode s.mode)),
          λ q. check-Matches s.angle,
        )

  control-Followed :
      (a : Motor) (s : Servo)
      → Agrees a s
      → let next = control_enabled_servo m time_step i s in
        Followed (receive_all i next.1 a) s next.0
  control-Followed a s h = elim (Bool-cases (is_speed (check differ_mode s.mode).0.target)) [
    | inl e ↦ Followed-speed a s h e
    | inr e ↦ Followed-angle a s h e
  ]

  if_true : {T : Type 0} (b : Bool) (x y : T) → b ≡ true → (if b then x else y) ≡ x
  if_true b x y e = rw e refl

  if_false : {T : Type 0} (b : Bool) (x y : T) → b ≡ false → (if b then x else y) ≡ y
  if_false b x y e = rw e refl

  enabled_same :
      (a : Motor) (s : Servo)
      → Agrees a s
      → (receive_all i (control_enabled_servo m time_step i s).1 a).enabled ≡ a.enabled
  enabled_same a s h = elim (Bool-cases (is_speed (check differ_mode s.mode).0.target)) [
    | inl e ↦ rw (follow_speed a s h e) refl
    | inr e ↦ rw (follow_angle a s h e) refl
  ]

  -- Where the simulator's servo agrees with the robot's, it still does after the outputs of
  -- control_servo. It is then enabled exactly as desired and, where it is enabled, it has the desired
  -- mode and, up to the floating-point unit's equality, the limited desired speed or the desired
  -- angle, as the mode says.
  pub control_servo_follows :
      (a : Motor) (s : Servo)
      → Agrees a s
      → let next = control_servo m time_step i s in
        let a' = receive_all i next.1 a in
        Agrees a' next.0
        × (a'.enabled ≡ s.enabled.desired)
        × (s.enabled.desired ≡ true
            → (a'.mode ≡ s.mode.desired)
              × (is_speed s.mode.desired ≡ true
                  → Matches a'.speed (desired_speed m time_step next.0))
              × (is_speed s.mode.desired ≡ false → Matches a'.angle s.angle.desired))
  unfolding control_servo Followed
  control_servo_follows a s h =
      let enabled = check differ_bool s.enabled in
      let checked = record s { enabled = enabled.0 } in
      let held = check_held differ_bool a.enabled s.enabled h.enabled in
      let a₁ = record a { enabled = enabled.0.target } in
      let h₁ : Agrees a₁ checked = record {
        enabled = inr refl;
        mode = h.mode;
        angle = h.angle;
        speed = h.speed;
      } in
      elim (Bool-cases enabled.0.target) [
        | inl e ↦
            let all = control-Followed a₁ checked h₁ in
            let same = enabled_same a₁ checked h₁ in
            rw (if_true enabled.0.target _ _ e, receive_all-append, receive_enabled, held)
              (all.0, same ∙ check_bool s.enabled, λ q. (all.1, all.2, all.3))
        | inr e ↦
            rw (if_false enabled.0.target _ _ e, receive_enabled, held)
              (h₁, check_bool s.enabled, λ q. absurd (cc (q, e, check_bool s.enabled)))
      ]
