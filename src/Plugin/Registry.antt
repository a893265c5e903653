-- ===== src/Plugin/Registry.antt =====
-- robomaster_sim/coppeliaSim_plugin/plugin.cpp: the robots of the plugin and how they are created, in
-- the version for the simulator from 4.3 on and for models from version 2 on.
pub mod Bound
pub mod Laws
use msde_robotics.Prelude.{
  ℕ, zero, suc, ◌+◌, ◌-◌, ◌*◌, ◌%◌, ◌^◌, List, [], ◌∷◌, Bool, true, false, not, ◌&&◌, ◌||◌, Option,
  none, some, ltb, leb, ◌==◌, if◌then◌else◌, get_elem?, get_or,
}
use msde_robotics.Prelude.Int.{ℤ, pos, negsuc}
use msde_robotics.Prelude.SortedMap.{emplace}
use msde_robotics.Wire.Bytes.{◌>>=◌, Float}
use msde_robotics.Robot.Platform.{Double, zero_f}
use msde_robotics.Robot.Maths.{Math, half_f}
use msde_robotics.Robot.Geometry.{WheelValues}
use msde_robotics.Robot.Schedule.{Schedule}
use msde_robotics.Robot.Machine.{Robot, Memory, new_robot}
use msde_robotics.Server.Pushes.{Job}
use msde_robotics.Plugin.Vision.{Sight}
use msde_robotics.Plugin.Vision.Classes.{set_vision_class}
use msde_robotics.Plugin.Interfaces.{Interface, Sockets, opens}
use msde_robotics.Plugin.Network.{get_ip}
use msde_robotics.Plugin.Bridge.{
  Handles, Signal, gripper_state, gripper_target, signal_value, is_positive,
}

-- The names that `get_handle` looks for, with their numbers.
pub data ObjectName : Type 0 where
  wheel_joint chassis_led_link servo_motor gimbal_motor : ℕ → ObjectName
  gimbal_led_link : ℕ → ℕ → ObjectName
  vision_sensor machine_vision_sensor blaster_light gripper_link : ObjectName
  gyro_sensor accelerometer reference : ObjectName

-- The arguments of `create`; `handle` is that of the robot's model.
pub record Creation : Type 0 where
  pub handle : ℤ
  pub serial_number : List ℕ
  pub remote_api_network : List ℕ
  pub enable_camera : Bool
  pub camera_use_udp : Bool
  pub camera_bitrate : ℤ
  pub enable_arm : Bool
  pub enable_gripper : Bool
  pub enable_gimbal : Bool
  pub enable_vision : Bool

-- A robot with its actions and its handles.
pub record Member : Type 0 where
  pub robot : Robot
  pub schedule : Schedule Job
  pub handles : Handles
  pub sight : Sight

-- The static variables.
pub record Registry : Type 0 where
  pub next_robot_handle : ℕ
  pub robots : List (ℕ × Member)
  pub interfaces : List (ℕ × Interface)

-- What the simulator gives to the creation: the handle of the object with this name below another, a
-- dimension of an object's bounding box, the shapes of a model, and for a vision sensor the tangent
-- of half its angle. The models are those that are named "RoboMaster" and "Bill".
pub record Models : Type 0 where
  pub get_handle : ObjectName → ℤ → ℤ
  pub bounding_box_size : ℕ → ℕ → Double
  pub shapes_in_tree : ℕ → List ℕ
  pub tan_fov_2 : ℤ → Float
  pub robo_masters : List ℕ
  pub bills : List ℕ

-- `h == -1`
abbrev pub is_missing : ℤ → Bool
is_missing (pos n) = false
is_missing (negsuc n) = n == 0

-- The handles of the numbered objects `i`, `i + 1`, …, or `none` where one is missing.
unfoldable pub find_all : (ℕ → ℤ) → ℕ → ℕ → Option (List ℤ)
find_all get i zero = some []
find_all get i (suc count) =
    let others = find_all get (suc i) count in
    if is_missing (get i) then none else do rest ← others; some (get i ∷ rest)

-- The loop over the gimbal's motors stops at one that is missing.
unfoldable pub find_gimbal : (ℕ → ℤ) → Bool → ℤ × ℤ × Bool
find_gimbal get enabled =
    if not enabled
    then (negsuc 0, negsuc 0, false)
    else if is_missing (get 0)
    then (get 0, negsuc 0, false)
    else (get 0, get 1, not (is_missing (get 1)))

-- The eight lights of one side of the gimbal, where it is enabled.
unfoldable pub find_leds : (ℕ → ℤ) → Bool → Option (List ℤ)
find_leds get enabled = if enabled then find_all get 0 8 else some []

module _ (m : Math) where
  open m use {fp}

  -- The constructor and `init_vision`; the thresholds are 0.5 and 0.0, PERSON is 1 and ROBOT is 7.
  -- The parameter `unset` is what the memory of `tan_fov_2` holds.
  unfoldable pub new_sight : Models → Float → ℤ → ℤ → Sight
  new_sight o unset root vision_handle =
      let blind : Sight = record {
        vision_class_for_handle = [];
        vertices_for_root = [];
        root_for_handle = [];
        root_handle = root;
        tan_fov_2 = unset;
        min_detection_width = half_f;
        min_detection_height = half_f;
        detection_tolerance = zero_f;
      } in
      if is_positive vision_handle
      then set_vision_class o.bounding_box_size o.shapes_in_tree 1 o.bills (
          set_vision_class o.bounding_box_size o.shapes_in_tree 7 o.robo_masters
            (record blind { tan_fov_2 = o.tan_fov_2 vision_handle }))
      else blind

  -- The robot that `add_robot` makes, or `none` where a wheel or a light is missing.
  unfoldable pub make_member : Models → Memory → Float → Creation → Option Member
  unfolding find_gimbal new_sight
  make_member o memory unset c =
      let get = λ (name : ObjectName). o.get_handle name c.handle in
      let found_camera = if c.enable_camera then get vision_sensor else negsuc 0 in
      let has_camera = c.enable_camera && not (is_missing found_camera) in
      let vision = if has_camera && c.enable_vision then get machine_vision_sensor else negsuc 0 in
      let servo = λ (i : ℕ). get (servo_motor i) in
      let has_arm = c.enable_arm && not (is_missing (servo 0)) && not (is_missing (servo 1)) in
      let gimbal = find_gimbal (λ i. get (gimbal_motor i)) c.enable_gimbal in
      let led = λ (i j : ℕ). get (gimbal_led_link i j) in
      let gyro = get gyro_sensor in
      do
        wheels ← find_all (λ i. get (wheel_joint i)) 0 4
        chassis_leds ← find_all (λ i. get (chassis_led_link i)) 0 4
        left_leds ← find_leds (led 0) gimbal.2
        right_leds ← find_leds (led 1) gimbal.2
        some (record {
          robot = new_robot m memory (record {
            has_arm = has_arm;
            has_gripper = c.enable_gripper;
            has_servo = is_positive (servo 0) ∷ is_positive (servo 1) ∷ is_positive (servo 2) ∷ [];
            has_gimbal = is_positive gimbal.0 && is_positive gimbal.1;
            has_camera = is_positive found_camera;
            has_tof = false;
          });
          schedule = record { actions = []; previous_action_state = [] };
          handles = record {
            wheel_joint_handles = record {
              front_left = get_or wheels 0 (negsuc 0);
              front_right = get_or wheels 1 (negsuc 0);
              rear_left = get_or wheels 2 (negsuc 0);
              rear_right = get_or wheels 3 (negsuc 0);
            };
            chassis_led_handles = chassis_leds;
            gimbal_led_handles = left_leds ∷ right_leds ∷ [];
            blaster_light_handle = if c.enable_gimbal then get blaster_light else negsuc 0;
            servo_handles = servo 0 ∷ servo 1 ∷ servo 2 ∷ gimbal.0 ∷ gimbal.1 ∷ [];
            tof_handles = [];
            camera_handle = found_camera;
            vision_handle = vision;
            gripper_state_signal = gripper_state (get gripper_link);
            gripper_target_signal = gripper_target (get gripper_link);
            imu_handle = o.get_handle reference gyro;
            accelerometer_handle = get accelerometer;
            accelerometer_signal = signal_value;
            gyro_handle = gyro;
            gyro_signal = signal_value;
          };
          sight = new_sight o unset c.handle vision;
        })

-- What `add_robot` returns, or throws.
pub data Outcome : Type 0 where
  created : ℕ → Outcome
  not_located thrown : Outcome

abbrev pub interface_of : Creation → List ℕ × ℕ → Interface
interface_of c (ip, prefix_len) = record {
  serial_number = c.serial_number;
  camera_use_udp = c.camera_use_udp;
  camera_bitrate = c.camera_bitrate;
  ip = ip;
  prefix_len = prefix_len;
}

-- `emplace` keeps a robot that is there. `get_ip` and the constructor of `RoboMaster` throw behind it,
-- and before the next handle.
unfoldable pub register : Sockets → Creation → Member → Registry → Registry × Outcome
register n c member st =
    let handle = st.next_robot_handle in
    let stored = record st { robots = emplace handle member st.robots } in
    elim c.remote_api_network [
      | [] ↦ (record stored { next_robot_handle = handle + 1 }, created handle)
      | _ ∷ _ ↦ elim (get_ip c.remote_api_network) [
        | none ↦ (stored, thrown)
        | some found ↦
            if opens n (interface_of c found)
            then (
              record stored {
                next_robot_handle = handle + 1;
                interfaces = emplace handle (interface_of c found) st.interfaces;
              },
              created handle,
            )
            else (stored, thrown)
      ]
    ]

unfoldable pub add_robot :
    Math → Models → Sockets → Memory → Float → Creation → Registry → Registry × Outcome
unfolding make_member register
add_robot m o n memory unset c st = elim (make_member m o memory unset c) [
  | none ↦ (st, not_located)
  | some member ↦ register n c member st
]

-- `create_ep` and `create_s1`: a robot with an arm and a gripper, and one with a gimbal.
abbrev pub creation_ep : ℤ → List ℕ → List ℕ → Creation
creation_ep handle serial_number network = record {
  handle = handle;
  serial_number = serial_number;
  remote_api_network = network;
  enable_camera = true;
  camera_use_udp = false;
  camera_bitrate = pos 1000000;
  enable_arm = true;
  enable_gripper = true;
  enable_gimbal = false;
  enable_vision = true;
}

abbrev pub creation_s1 : ℤ → List ℕ → List ℕ → Creation
creation_s1 handle serial_number network = record (creation_ep handle serial_number network) {
  enable_arm = false;
  enable_gripper = false;
  enable_gimbal = true;
}

-- `onSimulationAboutToEnd`
unfoldable pub end_simulation : Registry → Registry
end_simulation st = record { next_robot_handle = 0; robots = []; interfaces = [] }
