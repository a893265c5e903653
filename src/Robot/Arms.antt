-- ===== src/Robot/Arms.antt =====
-- robomaster_sim/include/robot/arm.hpp and src/robot/arm.cpp. The motors are references to two of
-- the robot's servos: an operation takes the two servos and gives them back.
use msde_robotics.Prelude.{if◌then◌else◌}
use msde_robotics.Wire.Bytes.{Float}
use msde_robotics.Robot.Platform.{Double, zero_f}
use msde_robotics.Robot.Maths.{Math, clamp, min_f, max_f}
use msde_robotics.Robot.Geometry.{
  Vector3, ArmServoValues, Matrix2, scale_vector, add_vector, sub_vector, add_arm, sub_arm,
  inverse_matrix, apply_matrix,
}
use msde_robotics.Robot.Devices.{ValueType, current, desired, set_value, get_value}
use msde_robotics.Robot.Servos.{Servo, servo_distance, get_desired_angle, set_desired_angle}

pub record Arm : Type 0 where
  pub motors : ArmServoValues Servo
  pub position : Vector3

-- L, ZERO and OFFSET: 0.12f, {1.5359f, 2.6442f} and {-0.00157f, 0.0f, 0.00523f}.
abbrev arm_length : Float
arm_length = 0x3df5_c28f

abbrev arm_zero : ArmServoValues Float
arm_zero = record { right = 0x3fc4_985f; left = 0x4029_3a93 }

abbrev arm_offset : Vector3
arm_offset = record { x = 0xbacd_c875; y = zero_f; z = 0x3bab_606b }

-- The limits -0.2740f, 1.3840f, -0.7993f, 1.7313f, 0.3473f and 1.2147f.
abbrev right_min : Float
right_min = 0xbe8c_49ba

abbrev right_max : Float
right_max = 0x3fb1_26e9

abbrev left_min : Float
left_min = 0xbf4c_9eed

abbrev left_max : Float
left_max = 0x3fdd_9b3d

abbrev low_gap : Float
low_gap = 0x3eb1_d14e

abbrev high_gap : Float
high_gap = 0x3f9b_7b4a

abbrev sqrt_two_d : Double
sqrt_two_d = 0x3ff6_a09e_667f_3bcd

unfoldable pub get_motors_angle : ValueType → Arm → ArmServoValues Float
unfolding get_value
get_motors_angle type a = record {
  right = get_value type a.motors.right.angle;
  left = get_value type a.motors.left.angle;
}

abbrev set_motor : ValueType → Float → Servo → Servo
set_motor type v s = record s { angle = set_value type v s.angle }

unfoldable pub set_motors_angle : ArmServoValues Float → ValueType → Arm → Arm
set_motors_angle v type a = record a {
  motors = record {
    right = set_motor type v.right a.motors.right;
    left = set_motor type v.left a.motors.left;
  };
}

module _ (m : Math) where
  open m use {fp, neg, sin, cos, add_double, sub_double, div_double, narrow}
  open fp use {add, sub, mul, div, lt, widen}

  unfoldable pub forward_arm_kinematics : ArmServoValues Float → Vector3
  forward_arm_kinematics values =
      let angles = sub_arm m arm_zero values in
      let p : Vector3 = record {
        x = sub (cos angles.right) (cos angles.left);
        y = zero_f;
        z = sub (sin angles.right) (sin angles.left);
      } in
      add_vector m (scale_vector m p arm_length) arm_offset

  unfoldable pub jacobian : ArmServoValues Float → Matrix2
  jacobian angles =
      let right = sub arm_zero.right angles.right in
      let left = sub arm_zero.left angles.left in
      record {
        a = mul arm_length (sin right);
        b = mul (neg arm_length) (sin left);
        c = mul (neg arm_length) (cos right);
        d = mul arm_length (cos left);
      }

  unfoldable pub inverse_arm_kinematics :
      Vector3 → Vector3 → ArmServoValues Float → Float → ArmServoValues Float
  unfolding jacobian
  inverse_arm_kinematics position arm_position arm_angles k =
      let diff = sub_vector m position arm_position in
      let turned =
        apply_matrix m (inverse_matrix m (jacobian arm_angles))
          (record { x = diff.x; y = diff.z }) in
      add_arm m arm_angles (record { right = mul k turned.x; left = mul k turned.y })

  -- The distance from one of the two lines that bound `right - left`; `bound` is a `double`.
  abbrev line_distance : (Double → Double → Double) → Double → ArmServoValues Float → Float
  line_distance shift bound v =
      narrow (div_double (shift (widen (sub v.right v.left)) bound) sqrt_two_d)

  abbrev move_down : Float → ArmServoValues Float → ArmServoValues Float
  move_down distance v = record { right = sub v.right distance; left = add v.left distance }

  -- The bounds of the lines are 1.2147 and 0.3473.
  unfoldable pub safe_motor_angles : ArmServoValues Float → ArmServoValues Float
  safe_motor_angles v =
      let inside : ArmServoValues Float = record {
        right = clamp m v.right right_min right_max;
        left = clamp m v.left left_min left_max;
      } in
      let above = line_distance sub_double 0x3ff3_6f69_4467_381d inside in
      let under = if lt zero_f above then move_down above inside else inside in
      let below = line_distance add_double 0x3fd6_3a29_c779_a6b5 under in
      if lt below zero_f then move_down below under else under

  unfoldable pub update_position : Arm → Arm
  unfolding forward_arm_kinematics
  update_position a = record a { position = forward_arm_kinematics (get_motors_angle current a) }

  unfoldable pub limit_motor_angles : ValueType → Arm → Arm
  unfolding safe_motor_angles set_motors_angle
  limit_motor_angles level a =
      set_motors_angle (safe_motor_angles (get_motors_angle level a)) level a

  -- The default of `k` is 0.2.
  unfoldable pub update_arm_control : Vector3 → Arm → Arm
  unfolding inverse_arm_kinematics limit_motor_angles
  update_arm_control target_position a =
      let angles =
        inverse_arm_kinematics target_position a.position (get_motors_angle current a)
          0x3e4c_cccd in
      limit_motor_angles desired (set_motors_angle angles desired a)

  unfoldable pub arm_distance : Arm → Float
  arm_distance a = add (servo_distance m a.motors.right) (servo_distance m a.motors.left)

  unfoldable pub get_motors_desired_angle : Float → Arm → ArmServoValues Float
  get_motors_desired_angle time_step a = record {
    right = get_desired_angle m time_step a.motors.right;
    left = get_desired_angle m time_step a.motors.left;
  }

  unfoldable pub set_motors_desired_angle : ArmServoValues Float → Float → Arm → Arm
  set_motors_desired_angle v time_step a = record a {
    motors = record {
      right = set_desired_angle m v.right time_step a.motors.right;
      left = set_desired_angle m v.left time_step a.motors.left;
    };
  }

  unfoldable pub limit_motors : Float → Arm → Arm
  unfolding get_motors_desired_angle set_motors_desired_angle safe_motor_angles
  limit_motors time_step a =
      let right = a.motors.right in
      let left = a.motors.left in
      let limited = record a {
        motors = record {
          right = record right {
            min_angle = max_f m (sub left.angle.current low_gap) right_min;
            max_angle = min_f m (add left.angle.current high_gap) right_max;
          };
          left = record left {
            min_angle = max_f m (sub right.angle.current high_gap) left_min;
            max_angle = add right.angle.current low_gap;
          };
        };
      } in
      set_motors_desired_angle (safe_motor_angles (get_motors_desired_angle time_step limited))
        time_step limited
