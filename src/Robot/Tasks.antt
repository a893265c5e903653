-- ===== src/Robot/Tasks.antt =====
-- robomaster_sim/include/robot/action.hpp: the actions of every kind, and the step of each.
use msde_robotics.Wire.Bytes.{Float}
use msde_robotics.Robot.Maths.{Math}
use msde_robotics.Robot.Action.{Action}
use msde_robotics.Robot.Sound.{Sound, step_sound}
use msde_robotics.Robot.Machine.{Robot}
use msde_robotics.Robot.Moves.{
  MoveBase, MoveArm, MoveServo, MoveGimbal, step_move_arm, step_move_servo, step_move_gimbal,
}
use msde_robotics.Robot.Moves.Base.{step_move_base}

pub data Task : Type 0 where
  move_base : MoveBase → Task
  move_arm : MoveArm → Task
  play_sound : Sound → Task
  move_servo : MoveServo → Task
  move_gimbal : MoveGimbal → Task

abbrev pub with_body : {B C : Type 0} → C → Action B → Action C
with_body body a = record {
  state = a.state;
  predicted_duration = a.predicted_duration;
  remaining_duration = a.remaining_duration;
  body = body;
}

-- The virtual function `do_step`.
unfoldable pub step_task : Math → Float → Action Task → Robot → Action Task × Robot
step_task m time_step a r = elim a.body [
  | move_base b ↦
      let next = step_move_base m time_step (with_body b a) r in
      (with_body (move_base next.0.body) next.0, next.1)
  | move_arm b ↦
      let next = step_move_arm m time_step (with_body b a) r in
      (with_body (move_arm next.0.body) next.0, next.1)
  | play_sound b ↦
      let next = step_sound m.fp time_step (with_body b a) in
      (with_body (play_sound next.0.body) next.0, r)
  | move_servo b ↦
      let next = step_move_servo m time_step (with_body b a) r in
      (with_body (move_servo next.0.body) next.0, next.1)
  | move_gimbal b ↦
      let next = step_move_gimbal m time_step (with_body b a) r in
      (with_body (move_gimbal next.0.body) next.0, next.1)
]
