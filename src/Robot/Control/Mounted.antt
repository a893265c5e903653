-- ===== src/Robot/Control/Mounted.antt =====
-- A step forwards commands to the parts that the robot has, and to no others.
use msde_robotics.Prelude.{
  ℕ, zero, suc, ◌+◌, ◌<◌, ◌≡◌, refl, ◌∙◌, subst, List, [], ◌∷◌, ◌++◌, Bool, true, false, get_or,
  length, All, All-append, Bool-cases, inl, inr, arith,
}
use msde_robotics.Wire.Bytes.{Float}
use msde_robotics.Robot.Maths.{Math}
use msde_robotics.Robot.Devices.{check, check_led}
use msde_robotics.Robot.Lights.{ActiveLed, CompositeLed, step_active, step_composite}
use msde_robotics.Robot.Servos.{Servo}
use msde_robotics.Robot.Arms.{Arm, limit_motors}
use msde_robotics.Robot.Machine.{
  Modules, Robot, Output, chassis_led, gimbal_led, target_gripper, target_servo_angle,
  target_servo_speed, servo_mode, servo_enabled, blaster_intensity, is_connected, with_arm,
}
use msde_robotics.Robot.Control.{
  forward_if, each_servo, connected_servos, control_chassis, control_enabled_servo, control_servo,
  control_servos, check_parts, control_leds, control_gripper, differ_float,
}
use msde_robotics.Robot.Steps.{aim, forward, act}

abbrev pub IsMounted : Modules → Output → Type 0
IsMounted k (gimbal_led i j c) = k.has_gimbal ≡ true
IsMounted k (blaster_intensity v) = k.has_gimbal ≡ true
IsMounted k (target_gripper s v) = k.has_gripper ≡ true
IsMounted k (target_servo_angle i v) = is_connected i k ≡ true
IsMounted k (target_servo_speed i v) = is_connected i k ≡ true
IsMounted k (servo_mode i v) = is_connected i k ≡ true
IsMounted k (servo_enabled i v) = is_connected i k ≡ true
IsMounted k _ = Unit {0}

abbrev pub AllMounted : Modules → List Output → Type 0
AllMounted k = All (IsMounted k)

module _ (k : Modules) where
  both : (os os' : List Output) → AllMounted k os → AllMounted k os' → AllMounted k (os ++ os')
  both = All-append (IsMounted k)

  forward_if-mounted : (b : Bool) (o : Output) → IsMounted k o → AllMounted k (forward_if b o)
  forward_if-mounted true o h = (h, tt)
  forward_if-mounted false o h = tt

  first :
      (f : ℕ → Servo → Servo × List Output) (i : ℕ) (s : Servo)
      → AllMounted k (f (i + 0) s).1
      → AllMounted k (f i s).1
  first f i s h = subst (λ n. AllMounted k (f n s).1) (omega arith) h

  later :
      (f : ℕ → Servo → Servo × List Output) (i j : ℕ) (s : Servo)
      → AllMounted k (f (i + suc j) s).1
      → AllMounted k (f (i + 1 + j) s).1
  later f i j s h = subst (λ n. AllMounted k (f n s).1) (omega arith) h

  each_servo-mounted :
      (f : ℕ → Servo → Servo × List Output) (i : ℕ) (connected : List Bool) (servos : List Servo)
      → ((j : ℕ) → get_or connected j false ≡ true → (s : Servo) → AllMounted k (f (i + j) s).1)
      → AllMounted k (each_servo f i connected servos).1
  unfolding each_servo
  each_servo-mounted f i connected [] h = tt
  each_servo-mounted f i [] (s ∷ rest) h = tt
  each_servo-mounted f i (true ∷ connected) (s ∷ rest) h =
      both _ _ (first f i s (h 0 refl s))
        (each_servo-mounted f (i + 1) connected rest (λ j e t. later f i j t (h (suc j) e t)))
  each_servo-mounted f i (false ∷ connected) (s ∷ rest) h =
      each_servo-mounted f (i + 1) connected rest (λ j e t. later f i j t (h (suc j) e t))

  check_parts-mounted :
      (n i j : ℕ) (l : CompositeLed) → k.has_gimbal ≡ true → AllMounted k (check_parts n i j l).1
  unfolding check_parts
  check_parts-mounted zero i j l h = tt
  check_parts-mounted (suc n) i j l h =
      both _ _ (forward_if-mounted _ _ h) (check_parts-mounted n i (j + 1) _ h)

  module _ (m : Math) (time_step : Float) where
    control_servo-mounted :
        (i : ℕ) (s : Servo)
        → is_connected i k ≡ true
        → AllMounted k (control_servo m time_step i s).1
    unfolding control_servo control_enabled_servo
    control_servo-mounted i s h = ground arith

pub with_arm-modules : (f : Arm → Arm) (r : Robot) → (with_arm f r).modules ≡ r.modules
unfolding with_arm
with_arm-modules f r = ground arith

get_or_below : (xs : List Bool) (j : ℕ) → get_or xs j false ≡ true → j < length xs
get_or_below [] j e = absurd (cc e)
get_or_below (x ∷ xs) zero e = omega arith
get_or_below (x ∷ xs) (suc j) e = omega (arith, get_or_below xs j e)

-- The numbers of the servos are those of `connected_servos`.
nth_connected :
    (k : Modules) (j : ℕ)
    → length k.has_servo ≡ 3
    → get_or k.has_servo j false ≡ true
    → is_connected (0 + j) k ≡ true
unfolding is_connected
nth_connected k j h e = ground (arith, get_or_below k.has_servo j e)

connected_servos-mounted :
    (f : ℕ → Servo → Servo × List Output) (r : Robot)
    → length r.modules.has_servo ≡ 3
    → ((i : ℕ) (s : Servo) → is_connected i r.modules ≡ true → AllMounted r.modules (f i s).1)
    → AllMounted r.modules (connected_servos f r).1 × ((connected_servos f r).0.modules ≡ r.modules)
unfolding connected_servos is_connected
connected_servos-mounted f r h all =
    let k = r.modules in
    let three =
      each_servo-mounted k f 0 k.has_servo r.servos
        (λ j e s. all (0 + j) s (nth_connected k j h e)) in
    elim (Bool-cases k.has_gimbal) [
      | inl e ↦
          let yaw = all 3 r.gimbal.yaw_servo e in
          let pitch = all 4 r.gimbal.pitch_servo e in
          simp e (both k _ _ (both k _ _ three yaw) pitch, refl)
      | inr e ↦ simp e (three, refl)
    ]

module _ (m : Math) (r : Robot) where
  Fine : Robot × List Output → Type 0
  Fine next = AllMounted r.modules next.1 × (next.0.modules ≡ r.modules)

  control_chassis-mounted : Fine (control_chassis m r)
  unfolding control_chassis Fine
  control_chassis-mounted = ground arith

  control_gripper-mounted : Fine (control_gripper m r)
  unfolding control_gripper Fine
  control_gripper-mounted = ground arith

  control_servos-mounted : length r.modules.has_servo ≡ 3 → Fine (control_servos m r)
  unfolding control_servos Fine
  control_servos-mounted h =
      let step = control_servo m r.last_time_step in
      let k = r.modules in
      let result : (q : Robot) → q.modules ≡ k → Fine (connected_servos step q) = λ q e.
        subst
          (λ c.
            AllMounted c (connected_servos step q).1 × ((connected_servos step q).0.modules ≡ c))
          e
          (connected_servos-mounted step q (rw e h)
            (λ i s. control_servo-mounted q.modules m r.last_time_step i s)) in
      elim (Bool-cases k.has_arm) [
        | inl e ↦
            simp e (result (with_arm (limit_motors m r.last_time_step) r) (with_arm-modules _ r))
        | inr e ↦ simp e (result r refl)
      ]

  control_leds-mounted : Fine (control_leds m r)
  unfolding control_leds Fine
  control_leds-mounted =
      let k = r.modules in
      let lights = λ (i : ℕ) (l : CompositeLed).
        check_parts-mounted k l.number i 0 (step_composite m r.last_time_step l) in
      let led = λ (i : ℕ) (l : ActiveLed).
        forward_if-mounted k (check_led (step_active m r.last_time_step l).changed).1
          (chassis_led i (step_active m r.last_time_step l).color) tt in
      let front_left = both k _ _ (led 0 r.chassis_leds.front) (led 1 r.chassis_leds.left) in
      let three = both k _ _ front_left (led 2 r.chassis_leds.rear) in
      let four = both k _ _ three (led 3 r.chassis_leds.right) in
      elim (Bool-cases k.has_gimbal) [
        | inl e ↦
            let top_left = lights 0 r.gimbal_leds.top_left e in
            let top_right = lights 1 r.gimbal_leds.top_right e in
            let blaster =
              forward_if-mounted k (check (differ_float m) r.blaster_led).1
                (blaster_intensity (check (differ_float m) r.blaster_led).0.target) e in
            simp e (both k _ _ (both k _ _ (both k _ _ four top_left) top_right) blaster, refl)
        | inr e ↦ simp e (four, refl)
      ]

-- What the steps of a sequence forward, each on the robot that the one before it left.
then_mounted :
    (m : Math) (r : Robot) (first : Robot × List Output) (step : Robot → Robot × List Output)
    → Fine m r first
    → Fine m first.0 (step first.0)
    → Fine m r ((step first.0).0, first.1 ++ (step first.0).1)
unfolding Fine
then_mounted m r first step h h' =
    (both r.modules _ _ h.0 (subst (λ k. AllMounted k (step first.0).1) h.1 h'.0), h'.1 ∙ h.1)

forward-mounted : (m : Math) (r : Robot) → length r.modules.has_servo ≡ 3 → Fine m r (forward m r)
unfolding forward Fine
forward-mounted m r h =
    let chassis = control_chassis-mounted m r in
    let leds =
      then_mounted m r (control_chassis m r) (control_leds m) chassis (control_leds-mounted m _) in
    let lit = (control_leds m (control_chassis m r).0).0 in
    let servos =
      then_mounted m r (lit, _) (control_servos m) leds
        (control_servos-mounted m lit (rw leds.1 h)) in
    then_mounted m r ((control_servos m lit).0, _) (control_gripper m) servos
      (control_gripper-mounted m _)

-- A robot with the slots of three servos forwards commands in a step only to connected servos, to
-- the gimbal's lights and the blaster if it has a gimbal, and to the gripper if it has one; its parts
-- stay the same.
pub act-mounted :
    (m : Math) (time_step : Float) (r : Robot)
    → length r.modules.has_servo ≡ 3
    → AllMounted r.modules (act m time_step r).1 × ((act m time_step r).0.modules ≡ r.modules)
unfolding act aim Fine
act-mounted m time_step r h =
    let same : (aim m time_step r).modules ≡ r.modules = ground arith in
    let all = forward-mounted m (aim m time_step r) (rw same h) in
    (subst (λ k. AllMounted k (act m time_step r).1) same all.0, all.1 ∙ same)
