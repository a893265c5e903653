-- ===== src/Plugin/Bridge/Reads.antt =====
-- robomaster_sim/coppeliaSim_plugin/coppeliasim_robot.cpp: what CoppeliaSimRobot reads from the
-- simulator, and its constructor. The simulator's functions are a parameter.
use msde_robotics.Prelude.{
  ℕ, List, [], not, ◌&&◌, Option, none, some, ◌==◌, if◌then◌else◌, get_elem?,
}
use msde_robotics.Prelude.Int.{ℤ, pos, negsuc}
use msde_robotics.Prelude.SortedMap.{lookup}
use msde_robotics.Wire.Bytes.{◌>>=◌, Float}
use msde_robotics.Robot.Platform.{zero_f}
use msde_robotics.Robot.Maths.{Math}
use msde_robotics.Robot.Geometry.{Vector3, WheelValues, Imu, zero_imu}
use msde_robotics.Robot.Objects.{DetectedObjects}
use msde_robotics.Robot.Machine.{Robot, Readings, Camera}
use msde_robotics.Plugin.Vision.{Sight, Corner}
use msde_robotics.Plugin.Vision.Detector.{run_detector}
use msde_robotics.Plugin.Bridge.{Handles, Signal, is_positive, is_zero}

-- The simulator's functions: the velocity and the position of a joint, the vector of a signal and
-- the angles of an object where they can be read, the image of a vision sensor (its width, its
-- height and its bytes; the camera's is turned upside down), the number of a signal, and the result
-- and the distance of a proximity sensor.
pub record Scene : Type 0 where
  pub joint_velocity : ℤ → Float
  pub joint_position : ℤ → Float
  pub vector3_property : ℤ → Signal → Option Vector3
  pub object_orientation : ℤ → Option Vector3
  pub vision_sensor_image : ℤ → ℕ × ℕ × List ℕ
  pub transform_image : List ℕ → List ℕ
  pub int32_signal : Signal → ℕ
  pub proximity_sensor : ℤ → ℤ × Float
  -- The corner of an object, from the object's coordinates to those of the vision sensor.
  pub view : ℤ → ℕ → Corner → Corner

unfoldable pub read_joints : (ℤ → Float) → WheelValues ℤ → WheelValues Float
read_joints read h = record {
  front_left = read h.front_left;
  front_right = read h.front_right;
  rear_left = read h.rear_left;
  rear_right = read h.rear_right;
}

unfoldable pub read_wheel_speeds : Scene → Handles → WheelValues Float
unfolding read_joints
read_wheel_speeds w h = read_joints w.joint_velocity h.wheel_joint_handles

unfoldable pub read_wheel_angles : Scene → Handles → WheelValues Float
unfolding read_joints
read_wheel_angles w h = read_joints w.joint_position h.wheel_joint_handles

-- The parameter `yaw` is what the memory holds, which the function leaves. The first angle is the
-- roll, the second the pitch.
unfoldable pub read_imu : Float → Scene → Handles → Imu
read_imu yaw w h = elim (w.vector3_property h.gyro_handle h.gyro_signal) [
  | none ↦ zero_imu
  | some gyro ↦ elim (w.vector3_property h.accelerometer_handle h.accelerometer_signal) [
    | none ↦ zero_imu
    | some acceleration ↦ elim (w.object_orientation h.imu_handle) [
      | none ↦ zero_imu
      | some angles ↦ record {
        attitude = record { yaw = yaw; pitch = angles.y; roll = angles.x };
        angular_velocity = gyro;
        acceleration = acceleration;
      }
    ]
  ]
]

-- The image is skipped where it has not the camera's size.
unfoldable pub read_camera_image : Scene → Handles → Camera → List ℕ
read_camera_image w h camera =
    let image = w.vision_sensor_image h.camera_handle in
    if is_zero h.camera_handle
    then []
    else if not (image.0 == camera.width && image.1 == camera.height)
    then []
    else w.transform_image image.2

-- The servo with this number, and 0 where its handle is not positive.
unfoldable pub read_servo : (ℤ → Float) → Handles → ℕ → Float
read_servo read h index = elim (get_elem? h.servo_handles index) [
  | none ↦ zero_f
  | some servo ↦ if is_positive servo then read servo else zero_f
]

unfoldable pub read_servo_angle : Scene → Handles → ℕ → Float
unfolding read_servo
read_servo_angle w h index = read_servo w.joint_position h index

unfoldable pub read_servo_speed : Scene → Handles → ℕ → Float
unfolding read_servo
read_servo_speed w h index = read_servo w.joint_velocity h index

-- The signal that is read is that of the target.
unfoldable pub read_gripper_state : Scene → Handles → ℕ
read_gripper_state w h = w.int32_signal h.gripper_target_signal

-- 0xbf80_0000 is -1.0f, for a sensor that detects nothing.
unfoldable pub measured : ℤ × Float → Float
measured (pos n, distance) = if n == 1 then distance else if n == 0 then 0xbf80_0000 else zero_f
measured (negsuc n, distance) = zero_f

unfoldable pub read_tof : Scene → Handles → ℕ → Float
unfolding measured
read_tof w h index = elim (lookup index h.tof_handles) [
  | none ↦ zero_f
  | some sensor ↦ measured (w.proximity_sensor sensor)
]

abbrev pub nothing : DetectedObjects
nothing = record { people = []; gestures = []; lines = []; markers = []; robots = [] }

module _ (m : Math) where
  -- `none` where the detector throws.
  unfoldable pub read_detected_objects : Scene → Handles → Sight → ℕ → Option DetectedObjects
  read_detected_objects w h s mask =
      let image = w.vision_sensor_image h.vision_handle in
      if not (is_positive h.vision_handle)
      then some nothing
      else run_detector m (w.view h.vision_handle) s image.2 image.0 image.1 mask

  -- All that a step reads. A step reads the servos 0 to 4 only, and the other readings where the
  -- robot has the part; a reading has no effect, but the detector may throw.
  unfoldable pub read_scene : Float → Scene → Handles → Sight → Robot → Option Readings
  unfolding read_wheel_speeds read_wheel_angles read_imu read_camera_image read_servo_angle
      read_servo_speed read_gripper_state read_tof read_detected_objects
  read_scene yaw w h s r = do
    objects ←
        if r.modules.has_camera && not (r.vision_enabled == 0)
        then read_detected_objects w h s r.vision_enabled
        else some nothing
    some (record {
      wheel_speeds = read_wheel_speeds w h;
      wheel_angles = read_wheel_angles w h;
      imu = read_imu yaw w h;
      tof = read_tof w h;
      gripper_state = read_gripper_state w h;
      detected_objects = objects;
      camera_image = read_camera_image w h r.camera;
      servo_angle = read_servo_angle w h;
      servo_speed = read_servo_speed w h;
    })
