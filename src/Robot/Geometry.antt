-- ===== src/Robot/Geometry.antt =====
-- robomaster_sim/include/utils.hpp: the vectors, poses and attitudes, and the values that come in
-- pairs and fours.
use msde_robotics.Prelude.{Bool, ◌&&◌}
use msde_robotics.Wire.Bytes.{Float}
use msde_robotics.Robot.Platform.{zero_f}
use msde_robotics.Robot.Maths.{Math, normalize}

pub record Vector3 : Type 0 where
  pub x : Float
  pub y : Float
  pub z : Float

pub record Attitude : Type 0 where
  pub yaw : Float
  pub pitch : Float
  pub roll : Float

pub record Twist2D : Type 0 where
  pub x : Float
  pub y : Float
  pub theta : Float

pub record Pose2D : Type 0 where
  pub x : Float
  pub y : Float
  pub theta : Float

pub record WheelValues (T : Type 0) : Type 0 where
  pub front_left : T
  pub front_right : T
  pub rear_left : T
  pub rear_right : T

pub record GimbalValues (T : Type 0) : Type 0 where
  pub yaw : T
  pub pitch : T

pub record ArmServoValues (T : Type 0) : Type 0 where
  pub right : T
  pub left : T

pub record Vector2 : Type 0 where
  pub x : Float
  pub y : Float

-- The rows of the matrix, `values[0][0]` first.
pub record Matrix2 : Type 0 where
  pub a : Float
  pub b : Float
  pub c : Float
  pub d : Float

pub record Imu : Type 0 where
  pub attitude : Attitude
  pub angular_velocity : Vector3
  pub acceleration : Vector3

pub record Odometry : Type 0 where
  pub pose : Pose2D
  pub twist : Twist2D

abbrev pub zero_vector : Vector3
zero_vector = record { x = zero_f; y = zero_f; z = zero_f }

abbrev pub zero_attitude : Attitude
zero_attitude = record { yaw = zero_f; pitch = zero_f; roll = zero_f }

abbrev pub zero_twist : Twist2D
zero_twist = record { x = zero_f; y = zero_f; theta = zero_f }

abbrev pub zero_pose : Pose2D
zero_pose = record { x = zero_f; y = zero_f; theta = zero_f }

abbrev pub zero_imu : Imu
zero_imu = record {
  attitude = zero_attitude;
  angular_velocity = zero_vector;
  acceleration = zero_vector;
}

-- The conversions between `Attitude` and `GimbalValues<float>`.
abbrev pub gimbal_values : Attitude → GimbalValues Float
gimbal_values v = record { yaw = v.yaw; pitch = v.pitch }

module _ (m : Math) where
  open m use {fp, neg, abs, sqrt, sin, cos}
  open fp use {add, sub, mul, div, eq}

  unfoldable pub rotate_vector : Float → Vector3 → Vector3
  rotate_vector theta v =
      let s = sin theta in
      let c = cos theta in
      record { x = sub (mul v.x c) (mul v.y s); y = add (mul v.x s) (mul v.y c); z = v.z }

  unfoldable pub scale_vector : Vector3 → Float → Vector3
  scale_vector v f = record { x = mul v.x f; y = mul v.y f; z = mul v.z f }

  unfoldable pub add_vector : Vector3 → Vector3 → Vector3
  add_vector v w = record { x = add v.x w.x; y = add v.y w.y; z = add v.z w.z }

  unfoldable pub sub_vector : Vector3 → Vector3 → Vector3
  sub_vector v w = record { x = sub v.x w.x; y = sub v.y w.y; z = sub v.z w.z }

  unfoldable pub add_attitude : Attitude → Attitude → Attitude
  add_attitude v w = record {
    yaw = add v.yaw w.yaw;
    pitch = add v.pitch w.pitch;
    roll = add v.roll w.roll;
  }

  unfoldable pub scale_twist : Twist2D → Float → Twist2D
  scale_twist v f = record { x = mul v.x f; y = mul v.y f; theta = mul v.theta f }

  unfoldable pub rotate_twist : Float → Twist2D → Twist2D
  unfolding rotate_vector
  rotate_twist alpha v =
      let p = rotate_vector alpha (record { x = v.x; y = v.y; z = zero_f }) in
      record { x = p.x; y = p.y; theta = v.theta }

  unfoldable pub add_twist : Pose2D → Twist2D → Pose2D
  add_twist p v = record { x = add p.x v.x; y = add p.y v.y; theta = add p.theta v.theta }

  -- `Pose2D::operator-`, which adds the coordinates.
  unfoldable pub sub_pose : Pose2D → Pose2D → Twist2D
  sub_pose p q = record {
    x = add p.x q.x;
    y = add p.y q.y;
    theta = normalize m (sub p.theta q.theta);
  }

  unfoldable pub rotate_pose : Float → Pose2D → Pose2D
  unfolding rotate_vector
  rotate_pose alpha p =
      let v = rotate_vector alpha (record { x = p.x; y = p.y; z = zero_f }) in
      record { x = v.x; y = v.y; theta = add p.theta alpha }

  -- `Pose2D::operator*`, the composition of two poses.
  unfoldable pub compose : Pose2D → Pose2D → Pose2D
  unfolding rotate_pose
  compose p q =
      let r = rotate_pose p.theta q in
      record { x = add r.x p.x; y = add r.y p.y; theta = add q.theta p.theta }

  unfoldable pub inverse : Pose2D → Pose2D
  unfolding rotate_pose
  inverse p =
      let q = rotate_pose (neg p.theta) p in
      record { x = neg q.x; y = neg q.y; theta = neg p.theta }

  unfoldable pub relative_to : Pose2D → Pose2D → Pose2D
  unfolding compose inverse
  relative_to p pose = compose (inverse pose) p

  unfoldable pub pose_distance : Pose2D → Float
  pose_distance p = sqrt (add (mul p.x p.x) (mul p.y p.y))

  unfoldable pub pose_norm : Pose2D → Float
  unfolding pose_distance
  pose_norm p = add (pose_distance p) (abs (normalize m p.theta))

  -- `WheelValues<float>::operator==`
  unfoldable pub equal_wheels : WheelValues Float → WheelValues Float → Bool
  equal_wheels v w =
      eq v.front_left w.front_left
      && eq v.front_right w.front_right
      && eq v.rear_left w.rear_left
      && eq v.rear_right w.rear_right

  unfoldable pub add_arm : ArmServoValues Float → ArmServoValues Float → ArmServoValues Float
  add_arm v w = record { right = add v.right w.right; left = add v.left w.left }

  unfoldable pub sub_arm : ArmServoValues Float → ArmServoValues Float → ArmServoValues Float
  sub_arm v w = record { right = sub v.right w.right; left = sub v.left w.left }

  unfoldable pub det : Matrix2 → Float
  det v = sub (mul v.a v.d) (mul v.b v.c)

  unfoldable pub inverse_matrix : Matrix2 → Matrix2
  unfolding det
  inverse_matrix v =
      let e = det v in
      record { a = div v.d e; b = div (neg v.b) e; c = div (neg v.c) e; d = div v.a e }

  -- The sums start at 0.
  unfoldable pub apply_matrix : Matrix2 → Vector2 → Vector2
  apply_matrix v w = record {
    x = add (add zero_f (mul w.x v.a)) (mul w.y v.b);
    y = add (add zero_f (mul w.x v.c)) (mul w.y v.d);
  }
