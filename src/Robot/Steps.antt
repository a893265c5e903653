-- ===== src/Robot/Steps.antt =====
-- robomaster_sim/src/robot/robot.cpp: `Robot::do_step` and the constructors of actions.
pub mod Mounted
use msde_robotics.Prelude.{List, ◌++◌, if◌then◌else◌}
use msde_robotics.Wire.Bytes.{Float}
use msde_robotics.Robot.Maths.{Math}
use msde_robotics.Robot.Action.{Action}
use msde_robotics.Robot.Schedule.{Schedule, step_schedule}
use msde_robotics.Robot.Gimbals.Control.{update_control}
use msde_robotics.Robot.Arms.{update_position}
use msde_robotics.Robot.Machine.{Robot, Readings, Output, with_arm}
use msde_robotics.Robot.Control.{
  read_chassis, read_modules, read_servos, control_chassis, control_leds, control_servos,
  control_gripper,
}

module _ (m : Math) where
  open m use {fp}
  open fp use {add}

  -- Up to the actions. The results of `read_hit_events` and `read_ir_events` are dropped.
  unfoldable pub sense : Float → Readings → Robot → Robot
  sense time_step w r =
      let timed = record r { time = add r.time time_step; last_time_step = time_step } in
      let read = read_servos w (read_modules w (read_chassis m w timed)) in
      if r.modules.has_arm then with_arm (update_position m) read else read

  -- Behind the actions, up to the publishers.
  unfoldable pub aim : Float → Robot → Robot
  aim time_step r =
      if r.modules.has_gimbal
      then record r {
        gimbal = update_control m time_step r.chassis.attitude r.chassis.imu r.gimbal;
      }
      else r

  unfoldable pub forward : Robot → Robot × List Output
  forward r =
      let chassis = control_chassis m r in
      let leds = control_leds m chassis.0 in
      let servos = control_servos m leds.0 in
      let gripper = control_gripper m servos.0 in
      (gripper.0, chassis.1 ++ leds.1 ++ servos.1 ++ gripper.1)

  unfoldable pub act : Float → Robot → Robot × List Output
  unfolding aim forward
  act time_step r = forward (aim time_step r)

  -- `B` is what the actions hold and `S` the state that their callbacks change beside the robot:
  -- `publish` is what runs behind the step, the robot's callbacks.
  module _ {B S : Type 0} (do_step : Float → Action B → Robot × S → Action B × (Robot × S))
      (callback : Float → Action B → Robot × S → Action B × (Robot × S))
      (publish : Float → Robot × S → Robot × S) where
    -- `Robot::do_step`
    unfoldable pub step_robot :
        Float → Readings → Schedule B → Robot × S → Schedule B × (Robot × S) × List Output
    unfolding sense act
    step_robot time_step w actions (r, s) =
        let (left, (moved, s')) =
          step_schedule do_step callback time_step actions (sense time_step w r, s) in
        let (acted, outputs) = act time_step moved in (left, publish time_step (acted, s'), outputs)
