-- ===== src/Examples/Machine.antt =====
-- The properties of the robot's step and of the answers, on concrete robots.
use msde_robotics.Prelude.{
  ℕ, ◌+◌, ◌-◌, ◌≡◌, inl, inr, refl, List, [], ◌∷◌, true, false, ltb, leb, ◌==◌, none, some, length,
  arith,
}
use msde_robotics.Prelude.Int.{pos, pos_part}
use msde_robotics.Wire.Bytes.{key_from, read}
use msde_robotics.Wire.Frame.{Decoded, accepted}
use msde_robotics.Messages.Registry.{Request, registered, find_callback, parsed}
use msde_robotics.Messages.Gimbal.{GimbalCtrl, read_gimbal_ctrl}
use msde_robotics.Robot.Platform.{Arithmetic}
use msde_robotics.Robot.Geometry.{zero_imu}
use msde_robotics.Robot.Maths.{Math}
use msde_robotics.Robot.Action.{Action, started, done, undefined}
use msde_robotics.Robot.Lights.{
  Color, black, on, ActiveLed, composite_led, get_color, update_active, update_composite,
}
use msde_robotics.Robot.Lights.Laws.{get_color-update_composite}
use msde_robotics.Robot.Servos.{ServoMode, Servo, servo, is_speed, desired_speed}
use msde_robotics.Robot.Machine.{Memory, Readings, Robot, new_robot, chassis_led}
use msde_robotics.Robot.Control.{control_servo}
use msde_robotics.Robot.Control.Servos.{Motor, Agrees, Matches, receive_all, control_servo_follows}
use msde_robotics.Robot.Control.Mounted.{AllMounted}
use msde_robotics.Robot.Control.Lights.{watch, watch-update_active}
use msde_robotics.Robot.Steps.{step_robot}
use msde_robotics.Commands.{Commands}
use msde_robotics.Server.{answer_decoded, send}
use msde_robotics.Server.World.{World, Unset}
use msde_robotics.Server.Answers.{answer, command_callbacks}
use msde_robotics.Server.Answers.Total.{request_in, answer_decoded-command_callbacks}
use msde_robotics.Robot.Tasks.{Task}
use msde_robotics.Robot.Moves.{MoveServo}
use msde_robotics.Robot.Schedule.{Schedule, move_servo_name}
use msde_robotics.Server.Pushes.{Job, step_job, publish_push}
use msde_robotics.Server.Pushes.Mounted.{step_robot-AllMounted}
use msde_robotics.Robot.Moves.Laws.{run, time_after, run-time_after}

abbrev whole_numbers : Arithmetic
whole_numbers = record {
  add = λ a b. a + b;
  sub = λ a b. a - b;
  mul = λ a b. a;
  div = λ a b. a;
  lt = leb;
  le = leb;
  eq = λ a b. a == b;
  of_ℕ = λ n. n;
  widen = λ a. a;
  lt_double = ltb;
}

abbrev pub whole_math : Math
whole_math = record {
  fp = whole_numbers;
  neg = λ a. 0;
  abs = λ a. a;
  sqrt = λ a. a;
  sin = λ a. 0;
  cos = λ a. 1;
  fmod = λ a b. a;
  neg_double = λ a. 0;
  add_double = λ a b. a;
  sub_double = λ a b. a;
  mul_double = λ a b. a;
  div_double = λ a b. a;
  sin_double = λ a. 0;
  cos_double = λ a. 1;
  fmod_double = λ a b. a;
  round_double = λ a. a;
  narrow = λ a. a;
  to_ℤ = λ a. pos a;
  of_ℤ = pos_part;
  double_of_ℤ = pos_part;
}

abbrev wheel_servo : Servo
wheel_servo = record (servo true 0 180 90) {
  angle = record { current = 10; target = 10; desired = 40; initialized = true };
}

abbrev motor : Motor
motor = record { enabled = false; mode = ServoMode.angle; speed = 0; angle = 10 }

abbrev motor_agrees : Agrees motor wheel_servo
unfolding servo
motor_agrees = record { enabled = inl refl; mode = inl refl; angle = inr refl; speed = refl }

control_servo_follows_example :
    let next = control_servo whole_math 1 0 wheel_servo in
    let a' = receive_all 0 next.1 motor in
    Agrees a' next.0
    × (a'.enabled ≡ wheel_servo.enabled.desired)
    × (wheel_servo.enabled.desired ≡ true
        → (a'.mode ≡ wheel_servo.mode.desired)
          × (is_speed wheel_servo.mode.desired ≡ true
              → Matches whole_math 1 0 a'.speed (desired_speed whole_math 1 next.0))
          × (is_speed wheel_servo.mode.desired ≡ false
              → Matches whole_math 1 0 a'.angle wheel_servo.angle.desired))
control_servo_follows_example = control_servo_follows whole_math 1 0 motor wheel_servo motor_agrees

abbrev red : Color
red = record { r = 0x3f80_0000; g = 0; b = 0 }

abbrev dark : ActiveLed
dark = record {
  color = black;
  active = false;
  tcolor = black;
  effect = 7;
  period_1 = 0;
  period_2 = 0;
  period = 0;
  loop = false;
  time = 0;
  changed = 3;
}

abbrev pub memory : Memory
memory = record {
  led = dark;
  control_speed = record { yaw = 1; pitch = 1 };
  camera = record { width = 0; height = 0; fps = 0; streaming = true; image = [] };
  last_time_step = 0;
}

abbrev arm_robot : Robot
unfolding new_robot
arm_robot = new_robot whole_math memory (record {
  has_arm = true;
  has_gripper = true;
  has_servo = true ∷ true ∷ false ∷ [];
  has_gimbal = false;
  has_camera = true;
  has_tof = false;
})

watch-update_active_example :
    watch whole_math 2 (1 ∷ 1 ∷ 1 ∷ []) (update_active whole_math red on 0 0 true dark)
    ≡ chassis_led 2 red ∷ []
watch-update_active_example =
    watch-update_active whole_math 2 red on 0 0 true dark 1 (1 ∷ 1 ∷ []) refl

get_color-update_composite_example :
    get_color 3 (update_composite whole_math red on 0 0 true 8 (composite_led dark 8)) ≡ red
unfolding composite_led
get_color-update_composite_example =
    get_color-update_composite whole_math red on 0 0 true 8 3 (composite_led dark 8) refl
      (omega arith)

abbrev moving : Action MoveServo
moving = record {
  state = started;
  predicted_duration = 0;
  remaining_duration = 0;
  body = record { servo_id = 0; target_angle = 40; current_angle = 10; time_left = 2 };
}

run-time_after_example :
    done (run whole_math ((1, wheel_servo) ∷ (1, wheel_servo) ∷ (1, wheel_servo) ∷ []) moving)
    ≡ true
unfolding time_after
run-time_after_example =
    run-time_after whole_math ((1, wheel_servo) ∷ (1, wheel_servo) ∷ []) 1 wheel_servo moving refl
      refl

abbrev idle_commands : Commands
idle_commands = record {
  publishers = [];
  vision_event = none;
  armor_hit_event = none;
  ir_hit_event = none;
  enable_armor_hits = false;
  enable_ir_hits = false;
  last_heartbeat = 0;
  time = 0;
  connected = true;
  streaming = false;
  streamer_active = false;
}

abbrev world : World
world = record {
  robot = arm_robot;
  schedule = record { actions = []; previous_action_state = [] };
  commands = idle_commands;
  outputs = [];
  colors = [];
}

abbrev unset : Unset
unset = record {
  reply = 1;
  push = 0;
  action = record { state = undefined; predicted_duration = 0; remaining_duration = 0; body = 0 };
  poses = record {
    state = undefined;
    predicted_duration = 0;
    remaining_duration = 0;
    body = (record { x = 0; y = 0; theta = 0 }, record { x = 0; y = 0; theta = 0 });
  };
  angles = record {
    state = undefined;
    predicted_duration = 0;
    remaining_duration = 0;
    body = record { yaw = 0; pitch = 0 };
  };
}

-- A GimbalCtrl with the order SUSPEND.
abbrev suspend : Decoded
suspend = record {
  cmd_set = 0x4;
  cmd_id = 0xd;
  seq_id = 7;
  attri = 0x40;
  sender = 2;
  receiver = 9;
  payload = 0xb5 ∷ 0x2a ∷ [];
}

abbrev suspend_request : GimbalCtrl
suspend_request = record { request = request_in suspend; order_code = 0x2ab5 }

answer_decoded-command_callbacks_example :
    (reply : List ℕ) × (answer_decoded
        (command_callbacks whole_math unset (λ a b. true) (λ a. a))
        (accepted suspend)
        world
      ≡ some (
        (answer whole_math unset
            (λ a b. true)
            (λ a. a)
            (Request.gimbal_ctrl suspend_request)
            world).0,
        reply,
      ))
    × (length (send reply) ≡ 1)
unfolding registered find_callback key_from read_gimbal_ctrl read
answer_decoded-command_callbacks_example =
    answer_decoded-command_callbacks whole_math unset (λ a b. true) (λ a. a) world suspend
      (parsed Request.gimbal_ctrl read_gimbal_ctrl) (Request.gimbal_ctrl suspend_request) refl refl

abbrev jobs : Schedule Job
jobs = record {
  actions =
      (
        move_servo_name,
        record {
          state = started;
          predicted_duration = 0;
          remaining_duration = 0;
          body = record { task = Task.move_servo moving.body; push = none };
        },
      )
      ∷ [];
  previous_action_state = [];
}

abbrev readings : Readings
readings = record {
  wheel_speeds = record { front_left = 1; front_right = 1; rear_left = 1; rear_right = 1 };
  wheel_angles = record { front_left = 2; front_right = 2; rear_left = 2; rear_right = 2 };
  imu = zero_imu;
  tof = λ i. 7;
  gripper_state = 1;
  detected_objects = record { people = []; gestures = []; lines = []; markers = []; robots = [] };
  camera_image = 3 ∷ [];
  servo_angle = λ i. 20;
  servo_speed = λ i. 1;
}

step_robot-AllMounted_example :
    AllMounted arm_robot.modules
      (step_robot whole_math
        (step_job whole_math)
        (publish_push whole_math)
        (λ t w. w)
        1
        readings
        jobs
        (arm_robot, [])).2
unfolding arm_robot
step_robot-AllMounted_example =
    step_robot-AllMounted whole_math (λ t w. w) 1 readings jobs arm_robot [] refl
