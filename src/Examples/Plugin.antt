-- ===== src/Examples/Plugin.antt =====
-- The plugin of the simulator on a small image, and with one robot.
use msde_robotics.Prelude.{
  not, leb, ◌==◌, ℕ, ◌%◌, ◌^◌, ◌≡◌, ◌≢◌, refl, [], ◌∷◌, List, Option, none, some, arith, true,
  false,
}
use msde_robotics.Prelude.Int.{pos, negsuc}
use msde_robotics.Prelude.SortedMap.{lookup}
use mathlib.Core.Option
use msde_robotics.Robot.Geometry.{Pose2D}
use msde_robotics.Robot.Action.{Action, undefined}
use msde_robotics.Robot.Objects.{BoundingBox, DetectedObjects}
use msde_robotics.Robot.Machine.{Robot, new_robot}
use msde_robotics.Robot.Schedule.{move_name}
use msde_robotics.Plugin.Vision.{Corner, Sight, box, detect_bounding_boxes}
use msde_robotics.Plugin.Vision.Classes.{set_vision_class}
use msde_robotics.Plugin.Vision.Detector.{run_detector}
use msde_robotics.Plugin.Vision.Boxes.{pixels, shown, IsRooted}
use msde_robotics.Plugin.Vision.Tight.{IsTight, box_of, detect_bounding_boxes-IsTight}
use msde_robotics.Plugin.Vision.Models.{HasModels, run_detector-some}
use msde_robotics.Plugin.Vision.Registered.{IsRegistered, set_vision_class-IsRegistered}
use msde_robotics.Plugin.Bridge.{gripper_state, gripper_target, signal_value}
use msde_robotics.Plugin.Bridge.Reads.{Scene}
use msde_robotics.Plugin.Interfaces.{Sockets}
use msde_robotics.Plugin.Registry.{
  Creation, Models, Member, Registry, add_robot, creation_ep, make_member,
}
use msde_robotics.Plugin.Registry.Laws.{IsWellFormed, Done, add_robot-Done}
use msde_robotics.Plugin.Callbacks.Motion.{move_to, get_state}
use msde_robotics.Plugin.Callbacks.Laws.{submitted, move_to-get_state}
use msde_robotics.Plugin.Steps.{step_plugin}
use msde_robotics.Plugin.Steps.Forwarded.{IsPlaced}
use msde_robotics.Plugin.Steps.Together.{Completes}
use msde_robotics.Plugin.Reachable.{around, empty, robot_added, moved}
use msde_robotics.Plugin.Reachable.Safe.{Reachable-Completes}
use msde_robotics.Plugin.Steps.Placed.{Ensures, make_member-IsPlaced}
use msde_robotics.Examples.Machine.{whole_math, memory}

abbrev corner : Corner
corner = record { x = 1; y = 1; z = 1 }

-- The object 5 is a shape of the robot 9.
abbrev sight : Sight
sight = record {
  vision_class_for_handle = (5, 7) ∷ [];
  vertices_for_root = (9, corner ∷ []) ∷ [];
  root_for_handle = (5, 9) ∷ [];
  root_handle = pos 3;
  tan_fov_2 = 1;
  min_detection_width = 0;
  min_detection_height = 0;
  detection_tolerance = 0;
}

sight-IsRooted : IsRooted sight
unfolding lookup
sight-IsRooted h k e = (9, ground arith)

sight-HasModels : HasModels sight
unfolding lookup
sight-HasModels h root e = (corner ∷ [], ground arith)

-- Two pixels, the first of which shows the object 5.
abbrev image : List ℕ
image = 5 ∷ 0 ∷ 0 ∷ 1 ∷ 1 ∷ 1 ∷ []

detect_bounding_boxes-IsTight_example :
    (boxes : List (ℕ × List (ℕ × BoundingBox))) × (detect_bounding_boxes whole_math sight image 2 1
        128
      ≡ some boxes)
    × ((k r : ℕ)
        → (rect : Option _) × (box_of k r boxes
            ≡ Option.map (box whole_math (2 % 2 ^ 16) (1 % 2 ^ 16)) rect)
          × IsTight (shown sight 128 k r (pixels 1 0 2 image)) rect)
detect_bounding_boxes-IsTight_example =
    detect_bounding_boxes-IsTight whole_math sight image 2 1 128 sight-IsRooted (omega arith)
      (omega arith) refl

run_detector-some_example :
    (objects : DetectedObjects) × (run_detector whole_math (λ h c. c) sight image 2 1 128
      ≡ some objects)
run_detector-some_example =
    run_detector-some whole_math (λ h c. c) sight image 2 1 128 sight-IsRooted sight-HasModels refl

set_vision_class-IsRegistered_example :
    IsRegistered (set_vision_class (λ h i. 1) (λ h. 6 ∷ 7 ∷ []) 1 (8 ∷ []) sight)
set_vision_class-IsRegistered_example =
    set_vision_class-IsRegistered (λ h i. 1) (λ h. 6 ∷ 7 ∷ []) 1 (8 ∷ []) sight (omega arith, tt)
      (record { rooted = sight-IsRooted; models = sight-HasModels })

abbrev models : Models
models = record {
  get_handle = λ name below. pos 20;
  bounding_box_size = λ h i. 1;
  shapes_in_tree = λ h. h ∷ [];
  tan_fov_2 = λ h. 1;
  robo_masters = 9 ∷ [];
  bills = [];
}

abbrev no_robots : Registry
no_robots = record { next_robot_handle = 0; robots = []; interfaces = [] }

no_robots-IsWellFormed : IsWellFormed no_robots
unfolding lookup
no_robots-IsWellFormed = record { sorted = tt; fresh = λ j h. refl }

-- The port 20020 is taken.
abbrev sockets : Sockets
sockets = record {
  make_address = λ text. some 7;
  any_address = 0;
  is_loopback = λ address. false;
  is_network = λ address prefix_len. leb prefix_len 32;
  can_bind = λ transport address port. not (port == 20020);
}

-- The network is "1/2".
abbrev networked : Creation
networked = creation_ep (pos 3) (65 ∷ []) (49 ∷ 47 ∷ 50 ∷ [])

add_robot-Done_example :
    let done = add_robot whole_math models sockets memory 1 networked no_robots in
    Done sockets
      (make_member whole_math models memory 1 networked)
      networked
      no_robots
      done.0
      done.1
add_robot-Done_example =
    add_robot-Done whole_math models sockets memory 1 networked no_robots no_robots-IsWellFormed

make_member-IsPlaced_example :
    Ensures IsPlaced (make_member whole_math models memory 1 (creation_ep (pos 3) (65 ∷ []) []))
make_member-IsPlaced_example =
    make_member-IsPlaced whole_math models memory 1 (creation_ep (pos 3) (65 ∷ []) [])

abbrev arm_robot : Robot
unfolding new_robot
arm_robot = new_robot whole_math memory (record {
  has_arm = true;
  has_gripper = true;
  has_servo = true ∷ true ∷ true ∷ [];
  has_gimbal = true;
  has_camera = true;
  has_tof = false;
})

-- A robot whose third servo and blaster are missing.
abbrev member : Member
member = record {
  robot = arm_robot;
  schedule = record { actions = []; previous_action_state = [] };
  handles = record {
    wheel_joint_handles = record {
      front_left = pos 10;
      front_right = pos 11;
      rear_left = pos 12;
      rear_right = pos 13;
    };
    chassis_led_handles = pos 14 ∷ pos 15 ∷ pos 16 ∷ pos 17 ∷ [];
    gimbal_led_handles = [] ∷ [] ∷ [];
    blaster_light_handle = negsuc 0;
    servo_handles = pos 20 ∷ pos 21 ∷ negsuc 0 ∷ pos 22 ∷ pos 23 ∷ [];
    tof_handles = [];
    camera_handle = pos 24;
    vision_handle = pos 25;
    gripper_state_signal = gripper_state (pos 26);
    gripper_target_signal = gripper_target (pos 26);
    imu_handle = pos 27;
    accelerometer_handle = pos 28;
    accelerometer_signal = signal_value;
    gyro_handle = pos 29;
    gyro_signal = signal_value;
  };
  sight = sight;
}

member-IsPlaced : IsPlaced member
unfolding arm_robot
member-IsPlaced = record {
  located = record {
    front_left = refl;
    front_right = refl;
    rear_left = refl;
    rear_right = refl;
    chassis_leds = (refl, (refl, (refl, (refl, tt))));
    gimbal_leds = (tt, (tt, tt));
    servos = refl;
  };
  servos = refl;
}

abbrev scene : Scene
scene = record {
  joint_velocity = λ h. 1;
  joint_position = λ h. 2;
  vector3_property = λ h s. none;
  object_orientation = λ h. none;
  vision_sensor_image = λ h. (2, 1, image);
  transform_image = λ b. b;
  int32_signal = λ s. 1;
  proximity_sensor = λ h. (pos 1, 3);
  view = λ h r c. c;
}

abbrev one_robot : Registry
one_robot = record no_robots { next_robot_handle = 5; robots = (4, member) ∷ [] }

abbrev no_move : Action (Pose2D × Pose2D)
no_move = record {
  state = undefined;
  predicted_duration = 0;
  remaining_duration = 0;
  body = (record { x = 0; y = 0; theta = 0 }, record { x = 0; y = 0; theta = 0 });
}

move_to-get_state_example :
    let done = move_to whole_math no_move 4 (record { x = 1; y = 2; theta = 3 }) 5 6 one_robot in
    (get_state 4 done.1 done.0 ≡ some (submitted move_name member.schedule))
    × (done.1 ≡ 1)
    × ((j : ℕ) → 4 ≢ j → lookup j done.0.robots ≡ lookup j one_robot.robots)
unfolding lookup
move_to-get_state_example =
    move_to-get_state whole_math no_move 4 (record { x = 1; y = 2; theta = 3 }) 5 6 one_robot member
      refl tt

-- A robot that a script has created and that moves.
abbrev moving_robot : Registry
moving_robot =
    let creation = creation_ep (pos 3) (65 ∷ []) [] in
    (move_to whole_math no_move 0 (record { x = 1; y = 2; theta = 3 }) 5 6
      (add_robot whole_math models sockets memory 1 creation no_robots).0).0

Reachable-Completes_example :
    Completes whole_math
      (around whole_math (λ h t v. v) (λ h. scene) 0)
      1
      moving_robot
      (step_plugin whole_math (around whole_math (λ h t v. v) (λ h. scene) 0) 1 moving_robot)
Reachable-Completes_example =
    Reachable-Completes whole_math (λ h t v. v) (λ h t v. refl) (λ h. scene) 0 1
      (moved no_move 0 (record { x = 1; y = 2; theta = 3 }) 5 6
        (robot_added models sockets memory 1 (creation_ep (pos 3) (65 ∷ []) []) empty))
