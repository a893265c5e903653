-- ===== src/Robot/Control.antt =====
-- robomaster_sim/src/robot/robot.cpp: what the robot reads from the simulator and what it forwards
-- to it in a step.
pub mod Servos
pub mod Lights
pub mod Mounted
use msde_robotics.Prelude.{
  ℕ, zero, suc, ◌+◌, List, [], ◌∷◌, ◌++◌, Bool, true, false, not, ◌&&◌, ◌||◌, ◌==◌, if◌then◌else◌,
}
use msde_robotics.Wire.Bytes.{Float}
use msde_robotics.Robot.Platform.{zero_f}
use msde_robotics.Robot.Maths.{Math}
use msde_robotics.Robot.Geometry.{equal_wheels}
use msde_robotics.Robot.Devices.{
  ControllableValue, check, ToFReading, check_led, check_composite_led,
}
use msde_robotics.Robot.Lights.{ActiveLed, CompositeLed, step_active, step_composite, get_color}
use msde_robotics.Robot.Servos.{Servo, differ_mode, differ_bool, is_speed, desired_speed}
use msde_robotics.Robot.Gimbals.{Gimbal}
use msde_robotics.Robot.Wheels.{Chassis, update_odometry, update_attitude}
use msde_robotics.Robot.Arms.{limit_motors}
use msde_robotics.Robot.Machine.{
  Robot, Readings, Output, target_wheel_speeds, chassis_led, gimbal_led, target_gripper,
  target_servo_angle, target_servo_speed, servo_mode, servo_enabled, blaster_intensity, with_arm,
}

abbrev pub differ_status : ℕ → ℕ → Bool
differ_status a b = not (a == b)

abbrev pub forward_if : Bool → Output → List Output
forward_if true o = o ∷ []
forward_if false o = []

-- The loops over `connected_servos`: the three servos that are connected, then those of the gimbal.
unfoldable pub each_servo :
    (ℕ → Servo → Servo × List Output) → ℕ → List Bool → List Servo → List Servo × List Output
each_servo f i connected [] = ([], [])
each_servo f i [] (s ∷ rest) = (s ∷ rest, [])
each_servo f i (c ∷ connected) (s ∷ rest) =
    let here = if c then f i s else (s, []) in
    let others = each_servo f (i + 1) connected rest in (here.0 ∷ others.0, here.1 ++ others.1)

unfoldable pub connected_servos : (ℕ → Servo → Servo × List Output) → Robot → Robot × List Output
unfolding each_servo
connected_servos f r =
    let three = each_servo f 0 r.modules.has_servo r.servos in
    let moved = record r { servos = three.0 } in
    let yaw = f 3 r.gimbal.yaw_servo in
    let pitch = f 4 r.gimbal.pitch_servo in
    if r.modules.has_gimbal
    then (
      record moved { gimbal = record r.gimbal { yaw_servo = yaw.0; pitch_servo = pitch.0 } },
      three.1 ++ yaw.1 ++ pitch.1,
    )
    else (moved, three.1)

abbrev read_servo : Readings → ℕ → Servo → Servo × List Output
read_servo w i s = (
  record s {
    angle = record s.angle { current = w.servo_angle i };
    speed = record s.speed { current = w.servo_speed i };
  },
  [],
)

unfoldable pub read_servos : Readings → Robot → Robot
unfolding connected_servos
read_servos w r = (connected_servos (read_servo w) r).0

-- The loop over the distance sensors, from sensor i on.
unfoldable pub read_tofs : (ℕ → Float) → ℕ → List ToFReading → List ToFReading
read_tofs read i [] = []
read_tofs read i (t ∷ rest) =
    (if t.active then record t { distance = read i } else t) ∷ read_tofs read (i + 1) rest

-- From the distance sensors to the camera.
unfoldable pub read_modules : Readings → Robot → Robot
unfolding read_tofs
read_modules w r =
    let k = r.modules in
    let g = r.gripper in
    record r {
      tof = if k.has_tof then read_tofs w.tof 0 r.tof else r.tof;
      gripper =
          if k.has_gripper
          then record g { state = record g.state { current = w.gripper_state } }
          else g;
      detected_objects =
          if k.has_camera && not (r.vision_enabled == 0)
          then w.detected_objects
          else r.detected_objects;
      camera =
          if k.has_camera && r.camera.streaming
          then record r.camera { image = w.camera_image }
          else r.camera;
    }

-- The inner loop, over the parts of one light from part j on.
unfoldable pub check_parts : ℕ → ℕ → ℕ → CompositeLed → CompositeLed × List Output
check_parts zero i j l = (l, [])
check_parts (suc n) i j l =
    let checked = check_composite_led j l.led.changed in
    let next = record l { led = record l.led { changed = checked.0 } } in
    let rest = check_parts n i (j + 1) next in
    (rest.0, forward_if checked.1 (gimbal_led i j (get_color j l)) ++ rest.1)

module _ (m : Math) where
  open m use {fp}
  open fp use {eq}

  abbrev pub differ_float : Float → Float → Bool
  differ_float a b = not (eq a b)

  unfoldable pub read_chassis : Readings → Robot → Robot
  read_chassis w r =
      let c = r.chassis in
      let read = record c {
        wheel_speeds = record c.wheel_speeds { current = w.wheel_speeds };
        wheel_angles = w.wheel_angles;
      } in
      let moved = update_odometry m r.last_time_step read in
      record r { chassis = update_attitude m r.last_time_step (record moved { imu = w.imu }) }

  unfoldable pub control_chassis : Robot → Robot × List Output
  control_chassis r =
      let checked = check (λ v w. not (equal_wheels m v w)) r.chassis.wheel_speeds in
      if r.chassis.wheel_motors_engaged
      then (
        record r { chassis = record r.chassis { wheel_speeds = checked.0 } },
        forward_if checked.1 (target_wheel_speeds checked.0.target),
      )
      else (r, [])

  -- The rest of the loop's body for a servo that is enabled.
  unfoldable pub control_enabled_servo : Float → ℕ → Servo → Servo × List Output
  unfolding check
  control_enabled_servo time_step i s =
      let mode = check differ_mode s.mode in
      let moded = record s { mode = mode.0 } in
      let wanted = desired_speed m time_step moded in
      let angle = check differ_float s.angle in
      let forwarded = forward_if mode.1 (servo_mode i mode.0.target) in
      if is_speed mode.0.target
      then if differ_float s.speed.target wanted
        then (
          record moded { speed = record s.speed { target = wanted } },
          forwarded ++ target_servo_speed i wanted ∷ [],
        )
        else (moded, forwarded)
      else (
        record moded { angle = angle.0 },
        forwarded ++ forward_if angle.1 (target_servo_angle i angle.0.target),
      )

  unfoldable pub control_servo : Float → ℕ → Servo → Servo × List Output
  unfolding control_enabled_servo
  control_servo time_step i s =
      let enabled = check differ_bool s.enabled in
      let checked = record s { enabled = enabled.0 } in
      let forwarded = forward_if enabled.1 (servo_enabled i enabled.0.target) in
      let rest = control_enabled_servo time_step i checked in
      if enabled.0.target then (rest.0, forwarded ++ rest.1) else (checked, forwarded)

  unfoldable pub control_servos : Robot → Robot × List Output
  unfolding connected_servos control_servo
  control_servos r =
      let limited = if r.modules.has_arm then with_arm (limit_motors m r.last_time_step) r else r in
      connected_servos (control_servo r.last_time_step) limited

  abbrev control_chassis_led : Float → ℕ → ActiveLed → ActiveLed × List Output
  control_chassis_led time_step i l =
      let stepped = step_active m time_step l in
      let checked = check_led stepped.changed in
      (record stepped { changed = checked.0 }, forward_if checked.1 (chassis_led i stepped.color))

  abbrev control_gimbal_led : Float → ℕ → CompositeLed → CompositeLed × List Output
  control_gimbal_led time_step i l = check_parts l.number i 0 (step_composite m time_step l)

  unfoldable pub control_leds : Robot → Robot × List Output
  unfolding check_parts
  control_leds r =
      let time_step = r.last_time_step in
      let front = control_chassis_led time_step 0 r.chassis_leds.front in
      let left = control_chassis_led time_step 1 r.chassis_leds.left in
      let rear = control_chassis_led time_step 2 r.chassis_leds.rear in
      let right = control_chassis_led time_step 3 r.chassis_leds.right in
      let top_left = control_gimbal_led time_step 0 r.gimbal_leds.top_left in
      let top_right = control_gimbal_led time_step 1 r.gimbal_leds.top_right in
      let blaster = check differ_float r.blaster_led in
      let lit = record r {
        chassis_leds = record { front = front.0; left = left.0; rear = rear.0; right = right.0 };
      } in
      let forwarded = front.1 ++ left.1 ++ rear.1 ++ right.1 in
      if r.modules.has_gimbal
      then (
        record lit {
          gimbal_leds = record { top_left = top_left.0; top_right = top_right.0 };
          blaster_led = blaster.0;
        },
        forwarded
            ++ top_left.1
            ++ top_right.1
            ++ forward_if blaster.1 (blaster_intensity blaster.0.target),
      )
      else (lit, forwarded)

  -- `||` checks the power only where the state has not changed.
  unfoldable pub control_gripper : Robot → Robot × List Output
  control_gripper r =
      let state = check differ_status r.gripper.state in
      let power = check differ_float r.gripper.power in
      let next =
        if state.1
        then record r.gripper { state = state.0 }
        else record { state = state.0; power = power.0 } in
      if r.modules.has_gripper
      then (
        record r { gripper = next },
        forward_if (state.1 || power.1) (target_gripper next.state.target next.power.target),
      )
      else (r, [])
