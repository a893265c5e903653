-- ===== src/Robot/Wheels.antt =====
-- robomaster_sim/include/robot/chassis.hpp and src/robot/chassis.cpp.
use msde_robotics.Prelude.{Bool, true}
use msde_robotics.Wire.Bytes.{Float}
use msde_robotics.Robot.Platform.{Double, zero_f}
use msde_robotics.Robot.Maths.{Math}
use msde_robotics.Robot.Geometry.{
  Attitude, Twist2D, WheelValues, Imu, Odometry, zero_attitude, zero_twist, zero_pose, zero_imu,
  scale_twist, rotate_twist, add_twist,
}
use msde_robotics.Robot.Devices.{ControllableValue, controllable}

-- `Frame` of chassis.hpp, as odom = 0 and body = 1.
pub data BaseFrame : Type 0 where
  odom body : BaseFrame

pub record Chassis : Type 0 where
  pub wheel_angles : WheelValues Float
  pub wheel_speeds : ControllableValue (WheelValues Float)
  pub imu : Imu
  pub odometry : Odometry
  pub body_twist : Twist2D
  pub attitude : Attitude
  pub wheel_motors_engaged : Bool

abbrev pub no_wheels : WheelValues Float
no_wheels = record {
  front_left = zero_f;
  front_right = zero_f;
  rear_left = zero_f;
  rear_right = zero_f;
}

unfoldable pub new_chassis : Chassis
unfolding controllable
new_chassis = record {
  wheel_angles = no_wheels;
  wheel_speeds = controllable no_wheels;
  imu = zero_imu;
  odometry = record { pose = zero_pose; twist = zero_twist };
  body_twist = zero_twist;
  attitude = zero_attitude;
  wheel_motors_engaged = true;
}

abbrev pub set_wheel_target : WheelValues Float → Chassis → Chassis
set_wheel_target speeds c = record c { wheel_speeds = record c.wheel_speeds { desired = speeds } }

-- `Chassis::get_twist` and `Chassis::stop`
unfoldable pub get_twist : BaseFrame → Chassis → Twist2D
get_twist odom c = c.odometry.twist
get_twist body c = c.body_twist

unfoldable pub stop : Chassis → Chassis
stop c = set_wheel_target no_wheels c

module _ (m : Math) where
  open m use {fp, neg, mul_double, div_double, narrow}
  open fp use {add, sub, mul, div, widen}

  unfoldable pub wheel_speeds_from_twist : Twist2D → Float → Float → WheelValues Float
  wheel_speeds_from_twist twist l radius =
      let turn = mul l twist.theta in
      record {
        front_left = div (sub (sub twist.x twist.y) turn) radius;
        front_right = div (add (add twist.x twist.y) turn) radius;
        rear_left = div (sub (add twist.x twist.y) turn) radius;
        rear_right = div (add (sub twist.x twist.y) turn) radius;
      }

  -- `0.25 * sum * radius` in `double`.
  unfoldable pub quarter : Float → Float → Double
  quarter sum radius = mul_double (mul_double 0x3fd0_0000_0000_0000 (widen sum)) (widen radius)

  unfoldable pub twist_from_wheel_speeds : WheelValues Float → Float → Float → Twist2D
  unfolding quarter
  twist_from_wheel_speeds s l radius = record {
    x =
        narrow
          (quarter (add (add (add s.front_left s.front_right) s.rear_left) s.rear_right) radius);
    y = narrow (
        quarter (sub (add (add (neg s.front_left) s.front_right) s.rear_left) s.rear_right) radius);
    theta = narrow (
        div_double
          (quarter (add (sub (add (neg s.front_left) s.front_right) s.rear_left) s.rear_right)
            radius)
          (widen l));
  }

  -- 0x3dcc_cccd is 0.1f, twice, and 0x3d4c_cccd is 0.05f.
  unfoldable pub set_target_velocity : Twist2D → Chassis → Chassis
  set_target_velocity twist c =
      set_wheel_target (wheel_speeds_from_twist twist (add 0x3dcc_cccd 0x3dcc_cccd) 0x3d4c_cccd) c

  -- The defaults are 0.2f and 0.05f.
  unfoldable pub update_odometry : Float → Chassis → Chassis
  unfolding twist_from_wheel_speeds
  update_odometry time_step c =
      let moved = twist_from_wheel_speeds c.wheel_speeds.current 0x3e4c_cccd 0x3d4c_cccd in
      let twist = rotate_twist m c.odometry.pose.theta moved in
      record c {
        body_twist = moved;
        odometry = record {
          pose = add_twist m c.odometry.pose (scale_twist m twist time_step);
          twist = twist;
        };
      }

  unfoldable pub update_attitude : Float → Chassis → Chassis
  update_attitude time_step c =
      let yaw = add c.attitude.yaw (mul time_step c.imu.angular_velocity.z) in
      record c {
        attitude = record { yaw = yaw; pitch = c.imu.attitude.pitch; roll = c.imu.attitude.roll };
        odometry = record {
          pose = record c.odometry.pose { theta = yaw };
          twist = record c.odometry.twist { theta = c.imu.angular_velocity.z };
        };
      }
