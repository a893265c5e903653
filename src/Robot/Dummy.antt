-- ===== src/Robot/Dummy.antt =====
-- robomaster_sim/src/dummy_robot.cpp: a robot that moves by itself, without a simulator.
pub mod Strip
use msde_robotics.Prelude.{
  ℕ, ◌+◌, ◌%◌, List, [], ◌∷◌, ◌++◌, Bool, true, not, ◌&&◌, Option, none, some, ◌==◌, if◌then◌else◌,
  get_elem?,
}
use msde_robotics.Prelude.Int.{pos}
use msde_robotics.Wire.Bytes.{◌>>=◌, Float}
use msde_robotics.Robot.Platform.{zero_f, one_f}
use msde_robotics.Robot.Maths.{Math, clamp, half_f}
use msde_robotics.Robot.Geometry.{WheelValues, Imu, zero_imu}
use msde_robotics.Robot.Action.{Action}
use msde_robotics.Robot.Devices.{Detector, is_enabled, current}
use msde_robotics.Robot.Servos.{Servo}
use msde_robotics.Robot.Wheels.{Chassis, update_odometry}
use msde_robotics.Robot.Arms.{limit_motor_angles}
use msde_robotics.Robot.Objects.{BoundingBox, DetectedObjects}
use msde_robotics.Robot.Schedule.{Schedule, step_schedule}
use msde_robotics.Robot.Machine.{
  Robot, Readings, Output, target_servo_angle, target_servo_speed, with_arm,
}
use msde_robotics.Robot.Control.{connected_servos}
use msde_robotics.Robot.Steps.{sense, act}
use msde_robotics.Robot.Dummy.Strip.{generate_strip_image}

-- The servos 0 to 2 and those of the gimbal; there is no other number in `connected_servos`.
unfoldable pub read_servo_of : (Servo → Float) → Robot → ℕ → Float
read_servo_of read r index =
    elim (get_elem? (r.servos ++ r.gimbal.yaw_servo ∷ r.gimbal.pitch_servo ∷ []) index) [
      | none ↦ zero_f
      | some s ↦ read s
    ]

abbrev angle_of : Servo → Float
angle_of s = s.angle.current

abbrev speed_of : Servo → Float
speed_of s = s.speed.current

-- 0x3e80_0000 is 0.25f.
abbrev quarter_box : BoundingBox
quarter_box = record { x = half_f; y = half_f; width = 0x3e80_0000; height = 0x3e80_0000 }

-- One object of each type that is enabled.
unfoldable pub detect : ℕ → DetectedObjects
detect enabled = record {
  people =
      if is_enabled Detector.person enabled
      then record { bounding_box = quarter_box; uid = pos 0 } ∷ []
      else [];
  gestures =
      if is_enabled Detector.gesture enabled
      then record { bounding_box = quarter_box; id = 1 } ∷ []
      else [];
  lines =
      if is_enabled Detector.line enabled
      then record { x = half_f; y = half_f; curvature = zero_f; angle = zero_f; info = 0 } ∷ []
      else [];
  markers =
      if is_enabled Detector.marker enabled
      then record { bounding_box = quarter_box; id = 1; distance = 1000 } ∷ []
      else [];
  robots =
      if is_enabled Detector.robot enabled
      then record { bounding_box = quarter_box; uid = pos 0 } ∷ []
      else [];
}

-- The image of the camera and the static variable `seq`. `none` is a division by 0.
unfoldable pub read_camera : Robot → ℕ → Option (List ℕ × ℕ)
unfolding generate_strip_image
read_camera r seq =
    let width = r.camera.width in
    let next = (seq + 1) % width in
    if width == 0 then none else (do
      image ← generate_strip_image next (next + 10) width r.camera.height
      some (image, next))

module _ (m : Math) where
  open m use {fp, neg, div_double, narrow}
  open fp use {add, sub, mul, div, widen}

  unfoldable pub turn_wheels : Float → Chassis → Chassis
  turn_wheels time c =
      let speeds = c.wheel_speeds.target in
      let now = c.wheel_angles in
      record c {
        wheel_speeds = record c.wheel_speeds { current = speeds };
        wheel_angles = record {
          front_left = add now.front_left (mul speeds.front_left time);
          front_right = add now.front_right (mul speeds.front_right time);
          rear_left = add now.rear_left (mul speeds.rear_left time);
          rear_right = add now.rear_right (mul speeds.rear_right time);
        };
      }

  unfoldable pub turn_servo : Float → Servo → Servo
  turn_servo time_step s = record s {
    angle = record s.angle {
      current =
          clamp m (add s.angle.current (mul s.speed.target time_step)) s.min_angle s.max_angle;
    };
  }

  -- The speed that the servo had, which was at the angle before.
  unfoldable pub measure_speed : Float → Float → Servo → Servo
  measure_speed time_step before s = record s {
    speed = record s.speed { current = div (sub s.angle.current before) time_step };
  }

  -- `do_step` up to the step of the class `Robot`.
  unfoldable pub move_dummy : Float → Robot → Robot
  unfolding turn_wheels turn_servo measure_speed
  move_dummy time_step r =
      let rolled = record r { chassis = turn_wheels r.last_time_step r.chassis } in
      let turned = (connected_servos (λ i s. (turn_servo time_step s, [])) rolled).0 in
      let limited =
        if r.modules.has_arm then with_arm (limit_motor_angles m current) turned else turned in
      let before = read_servo_of angle_of r in
      let measured =
        (connected_servos (λ i s. (measure_speed time_step (before i) s, [])) limited).0 in
      if r.modules.has_gripper
      then record measured {
        gripper = record r.gripper {
          state = record r.gripper.state { current = r.gripper.state.target };
        };
      }
      else measured

  -- It is read behind the update of the odometry, which sets the twist. 0x411c_f5c3 is 9.81f.
  unfoldable pub read_dummy_imu : Float → Chassis → Imu
  read_dummy_imu time_step c = record zero_imu {
    acceleration = record { x = zero_f; y = zero_f; z = 0x411c_f5c3 };
    angular_velocity = record {
      x = zero_f;
      y = zero_f;
      z = (update_odometry m time_step c).body_twist.theta;
    };
  }

  -- All that a step reads. 0x3f63_d70a is 0.89f.
  unfoldable pub read_dummy : Float → Robot → ℕ → Option (Readings × ℕ)
  unfolding read_dummy_imu
  read_dummy time_step r seq = do
    camera ←
        if r.modules.has_camera && r.camera.streaming then read_camera r seq else some ([], seq)
    let w : Readings = record {
      wheel_speeds = r.chassis.wheel_speeds.current;
      wheel_angles = r.chassis.wheel_angles;
      imu = read_dummy_imu time_step r.chassis;
      tof = λ index. 0x3f63_d70a;
      gripper_state = r.gripper.state.current;
      detected_objects = detect r.vision_enabled;
      camera_image = camera.0;
      servo_angle = read_servo_of angle_of r;
      servo_speed = read_servo_of speed_of r;
    }
    some (w, camera.1)

  unfoldable pub receive_speed : Float → Servo → Servo
  receive_speed value s = record s {
    speed = record s.speed { target = clamp m value (neg s.max_speed) s.max_speed };
  }

  -- 0x3fd0_0000_0000_0000 is 0.25; 0x7fc0_0000 is not a number, to force an update.
  unfoldable pub receive_angle : Float → Servo → Servo
  unfolding receive_speed
  receive_angle value s =
      let wanted = narrow (div_double (widen (sub value s.angle.current)) 0x3fd0_0000_0000_0000) in
      let moving = receive_speed wanted s in
      record moving { angle = record moving.angle { target = 0x7fc0_0000 } }

  abbrev at_servo : ℕ → (Servo → Servo) → Robot → Robot
  at_servo index f r = (connected_servos (λ i s. (if i == index then f s else s, [])) r).0

  -- The virtual functions behind the outputs; the others do nothing.
  unfoldable pub receive : Output → Robot → Robot
  unfolding receive_angle
  receive (target_servo_angle index value) r = at_servo index (receive_angle value) r
  receive (target_servo_speed index value) r = at_servo index (receive_speed value) r
  receive _ r = r

  unfoldable pub receive_outputs : List Output → Robot → Robot
  unfolding receive
  receive_outputs [] r = r
  receive_outputs (o ∷ os) r = receive_outputs os (receive o r)

  -- `DummyRobot::do_step`, with `Robot::do_step` taken apart: what it forwards to a servo changes the
  -- servo before the robot's callbacks. A control of a servo does not read what it has forwarded.
  module _ {B S : Type 0} (do_step : Float → Action B → Robot × S → Action B × (Robot × S))
      (callback : Float → Action B → Robot × S → Action B × (Robot × S))
      (publish : Float → Robot × S → Robot × S) where
    unfoldable pub step_dummy :
        Float → Schedule B → Robot × S → ℕ → Option (Schedule B × (Robot × S) × ℕ)
    unfolding move_dummy read_dummy receive_outputs
    step_dummy time_step actions (r, s) seq = do
      let moved = move_dummy time_step r
      read ← read_dummy time_step moved seq
      let run = step_schedule do_step callback time_step actions (sense m time_step read.0 moved, s)
      let acted = act m time_step run.1.0
      let received = receive_outputs acted.1 acted.0
      some (run.0, publish time_step (received, run.1.1), read.1)

unfoldable pub forward_dummy_resolution : ℕ → ℕ → Robot → Robot × Bool
forward_dummy_resolution width height r =
    (record r { camera = record r.camera { width = width; height = height } }, true)
