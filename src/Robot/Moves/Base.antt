-- ===== src/Robot/Moves/Base.antt =====
-- MoveAction of robomaster_sim/include/robot/action.hpp and src/robot/action.cpp: the action that
-- moves the robot's base.
use msde_robotics.Prelude.{not, if◌then◌else◌}
use msde_robotics.Wire.Bytes.{Float}
use msde_robotics.Robot.Platform.{zero_f, one_f}
use msde_robotics.Robot.Maths.{Math, clamp, min_f, max_f, normalize, half_f}
use msde_robotics.Robot.Geometry.{
  Pose2D, Twist2D, zero_twist, compose, relative_to, pose_distance, pose_norm,
}
use msde_robotics.Robot.Action.{succeed, Action}
use msde_robotics.Robot.Wheels.{set_target_velocity}
use msde_robotics.Robot.Machine.{Robot}
use msde_robotics.Robot.Moves.{MoveBase, is_started, is_running, begun, new_action}

module _ (m : Math) where
  open m use {fp, neg, abs}
  open fp use {add, sub, mul, div, lt, widen, lt_double}

  unfoldable pub time_to_goal : Pose2D → Float → Float → Float
  time_to_goal goal linear_speed angular_speed =
      max_f m (div (abs (normalize m goal.theta)) angular_speed)
        (div (pose_distance m goal) linear_speed)

  unfoldable pub move_base_action :
      Action (Pose2D × Pose2D) → Pose2D → Float → Float → Action MoveBase
  unfolding new_action time_to_goal
  move_base_action memory goal linear_speed angular_speed =
      record (new_action memory (record {
        goal = goal;
        goal_odom = memory.body.0;
        current = memory.body.1;
        linear_speed = linear_speed;
        angular_speed = angular_speed;
      })) { predicted_duration = time_to_goal goal linear_speed angular_speed }

  -- The velocity towards a goal that is not reached yet.
  unfoldable pub velocity_to_goal : Pose2D → Float → Float → Twist2D
  velocity_to_goal goal linear_speed angular_speed =
      let f = min_f m one_f (div linear_speed (div (pose_distance m goal) half_f)) in
      record {
        x = div (mul f goal.x) half_f;
        y = div (mul f goal.y) half_f;
        theta = clamp m (div goal.theta half_f) (neg angular_speed) angular_speed;
      }

  -- The double 0.01.
  unfoldable pub step_move_base : Float → Action MoveBase → Robot → Action MoveBase × Robot
  unfolding velocity_to_goal time_to_goal
  step_move_base time_step a r =
      let b = a.body in
      let pose = r.chassis.odometry.pose in
      let first = is_started a.state in
      let goal_odom = if first then compose m pose b.goal else b.goal_odom in
      let next = record a { state = begun a.state; body = record b { goal_odom = goal_odom } } in
      let goal = relative_to m goal_odom pose in
      let reached = lt_double (widen (pose_norm m goal)) 0x3f84_7ae1_47ae_147b in
      let left = time_to_goal goal b.linear_speed b.angular_speed in
      let twist =
        if reached then zero_twist else velocity_to_goal goal b.linear_speed b.angular_speed in
      let driven = record r { chassis = set_target_velocity m twist r.chassis } in
      if not (is_running next.state)
      then (next, r)
      else if reached
      then (record next { state = succeed; remaining_duration = zero_f }, driven)
      else (
        record next {
          remaining_duration = left;
          predicted_duration = if first then left else a.predicted_duration;
        },
        driven,
      )
