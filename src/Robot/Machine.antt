-- ===== src/Robot/Machine.antt =====
-- robomaster_sim/include/robot/robot.hpp: the state of the class `Robot` but for its actions and
-- callbacks, and its virtual functions, which the simulator implements: those that it reads from as
-- a record of readings, those that it forwards commands to as a list of outputs.
use msde_robotics.Prelude.{
  ℕ, zero, suc, List, [], ◌∷◌, Bool, false, ◌&&◌, ltb, if◌then◌else◌, get_or,
}
use msde_robotics.Wire.Bytes.{Float}
use msde_robotics.Robot.Platform.{zero_f}
use msde_robotics.Robot.Maths.{Math}
use msde_robotics.Robot.Geometry.{zero_vector, Vector3, GimbalValues, WheelValues, Imu}
use msde_robotics.Robot.Devices.{ControllableValue, controllable, ToFReading}
use msde_robotics.Robot.Lights.{Color, ActiveLed, CompositeLed, active_led, composite_led}
use msde_robotics.Robot.Servos.{ServoMode, Servo, Gripper, gripper, default_servo}
use msde_robotics.Robot.Gimbals.{Gimbal, new_gimbal}
use msde_robotics.Robot.Wheels.{Chassis, new_chassis}
use msde_robotics.Robot.Arms.{Arm}
use msde_robotics.Robot.Objects.{DetectedObjects}

-- `Robot::Mode`; a byte of a request is cast to it, so other numbers occur.
abbrev pub free : ℕ
free = 0

abbrev pub gimbal_lead : ℕ
gimbal_lead = 1

abbrev pub chassis_lead : ℕ
chassis_lead = 2

pub record ChassisLeds : Type 0 where
  pub front : ActiveLed
  pub left : ActiveLed
  pub rear : ActiveLed
  pub right : ActiveLed

pub record GimbalLeds : Type 0 where
  pub top_left : CompositeLed
  pub top_right : CompositeLed

pub record Camera : Type 0 where
  pub width : ℕ
  pub height : ℕ
  pub fps : Float
  pub streaming : Bool
  pub image : List ℕ

-- The optional parts.
pub record Modules : Type 0 where
  pub has_arm : Bool
  pub has_gripper : Bool
  pub has_servo : List Bool
  pub has_gimbal : Bool
  pub has_camera : Bool
  pub has_tof : Bool

-- The fields of `Robot`; `arm_position` is the arm's own field, whose motors are the first two
-- servos.
pub record Robot : Type 0 where
  pub chassis : Chassis
  pub servos : List Servo
  pub arm_position : Vector3
  pub gimbal : Gimbal
  pub chassis_leds : ChassisLeds
  pub gimbal_leds : GimbalLeds
  pub blaster_led : ControllableValue Float
  pub gripper : Gripper
  pub tof : List ToFReading
  pub vision_enabled : ℕ
  pub detected_objects : DetectedObjects
  pub camera : Camera
  pub modules : Modules
  pub mode : ℕ
  pub sdk_enabled : Bool
  pub time : Float
  pub last_time_step : Float

-- The results of the virtual `read_…` functions.
pub record Readings : Type 0 where
  pub wheel_speeds : WheelValues Float
  pub wheel_angles : WheelValues Float
  pub imu : Imu
  pub tof : ℕ → Float
  pub gripper_state : ℕ
  pub detected_objects : DetectedObjects
  pub camera_image : List ℕ
  pub servo_angle : ℕ → Float
  pub servo_speed : ℕ → Float

-- The calls of the virtual `forward_…` functions, with their arguments.
pub data Output : Type 0 where
  target_wheel_speeds : WheelValues Float → Output
  engage_motors : Bool → Output
  chassis_led : ℕ → Color → Output
  gimbal_led : ℕ → ℕ → Color → Output
  target_gripper : ℕ → Float → Output
  target_servo_angle : ℕ → Float → Output
  target_servo_speed : ℕ → Float → Output
  servo_mode : ℕ → ServoMode → Output
  servo_enabled : ℕ → Bool → Output
  blaster_intensity : Float → Output

abbrev no_reading : ToFReading
no_reading = record { distance = zero_f; active = false }

abbrev nothing_detected : DetectedObjects
nothing_detected = record { people = []; gestures = []; lines = []; markers = []; robots = [] }

-- `servos[i] = f(servos[i])`, which changes nothing behind the end.
unfoldable pub update_servo : ℕ → (Servo → Servo) → List Servo → List Servo
update_servo i f [] = []
update_servo zero f (s ∷ rest) = f s ∷ rest
update_servo (suc i) f (s ∷ rest) = s ∷ update_servo i f rest

-- Whether `connected_servos` has the key: 0, 1 and 2 are the servos, 3 and 4 those of the gimbal.
unfoldable pub is_connected : ℕ → Modules → Bool
is_connected i k =
    if ltb i 3 then get_or k.has_servo i false else if ltb i 5 then k.has_gimbal else false

-- The robot's arm: `Arm(servos[0], servos[1])` takes the left motor first. Its references change
-- the servos.
unfoldable pub arm_of : Servo → Servo → Vector3 → Arm
arm_of left right position = record {
  motors = record { right = right; left = left };
  position = position;
}

unfoldable pub with_arm : (Arm → Arm) → Robot → Robot
unfolding arm_of
with_arm f r = elim r.servos [
  | [] ↦ r
  | left ∷ others ↦ elim others [
    | [] ↦ r
    | right ∷ rest ↦
        let a = f (arm_of left right r.arm_position) in
        record r { servos = a.motors.left ∷ a.motors.right ∷ rest; arm_position = a.position }
  ]
]

-- What the constructor's members hold before it sets the fields that it sets.
pub record Memory : Type 0 where
  pub led : ActiveLed
  pub control_speed : GimbalValues Float
  pub camera : Camera
  pub last_time_step : Float

-- The constructor; `has_arm` needs the first two servos.
unfoldable pub new_robot : Math → Memory → Modules → Robot
new_robot m memory k =
    let led = active_led memory.led in
    let lights = composite_led memory.led 8 in
    let s = λ (i : ℕ). default_servo m (get_or k.has_servo i false) in
    record {
      chassis = new_chassis;
      servos = s 0 ∷ s 1 ∷ s 2 ∷ [];
      arm_position = zero_vector;
      gimbal = new_gimbal m memory.control_speed;
      chassis_leds = record { front = led; left = led; rear = led; right = led };
      gimbal_leds = record { top_left = lights; top_right = lights };
      blaster_led = controllable zero_f;
      gripper = gripper;
      tof = no_reading ∷ no_reading ∷ no_reading ∷ no_reading ∷ [];
      vision_enabled = 0;
      detected_objects = nothing_detected;
      camera = record memory.camera { streaming = false; image = [] };
      modules = record k {
        has_arm = k.has_arm && get_or k.has_servo 0 false && get_or k.has_servo 1 false;
      };
      mode = free;
      sdk_enabled = false;
      time = zero_f;
      last_time_step = memory.last_time_step;
    }
