-- ===== src/Server/Pushes/Mounted.antt =====
-- The actions of robomaster_sim leave the robot's parts alone, so that its steps respect them.
use msde_robotics.Prelude.{ℕ, ◌≡◌, List, length, arith}
use msde_robotics.Wire.Bytes.{Float}
use msde_robotics.Robot.Maths.{Math}
use msde_robotics.Robot.Action.{Action}
use msde_robotics.Robot.Schedule.{Schedule}
use msde_robotics.Robot.Machine.{Robot, Readings, with_arm}
use msde_robotics.Robot.Control.Mounted.{AllMounted}
use msde_robotics.Robot.Steps.{step_robot}
use msde_robotics.Robot.Steps.Mounted.{KeepsModules, step_robot-mounted, step_robot-modules}
use msde_robotics.Robot.Tasks.{Task, step_task}
use msde_robotics.Robot.Moves.Base.{step_move_base}
use msde_robotics.Robot.Moves.{step_move_arm, step_move_servo, step_move_gimbal}
use msde_robotics.Server.Pushes.{Job, step_job, publish_push}

module _ (m : Math) where
  step_task-modules :
      (time_step : Float) (a : Action Task) (r : Robot)
      → (step_task m time_step a r).1.modules ≡ r.modules
  unfolding step_task step_move_base step_move_arm step_move_servo step_move_gimbal with_arm
  step_task-modules time_step a r = ground arith

  step_job-KeepsModules : KeepsModules (step_job m)
  unfolding step_job
  step_job-KeepsModules time_step a w = step_task-modules time_step _ w.0

  publish_push-KeepsModules : KeepsModules (publish_push m)
  unfolding publish_push
  publish_push-KeepsModules time_step a w = ground arith

  -- In a step of a robot with the slots of three servos, whatever its actions, the readings of the
  -- simulator and what the servers publish, the robot forwards commands only to connected servos, to the gimbal's
  -- lights and the blaster if it has a gimbal, and to the gripper if it has one.
  pub step_robot-AllMounted :
      (publish : Float → Robot × List (List ℕ) → Robot × List (List ℕ)) (time_step : Float)
      (w : Readings) (actions : Schedule Job) (r : Robot) (sent : List (List ℕ))
      → length r.modules.has_servo ≡ 3
      → AllMounted r.modules
          (step_robot m (step_job m) (publish_push m) publish time_step w actions (r, sent)).2
  step_robot-AllMounted publish time_step w actions r sent servos =
      step_robot-mounted m (step_job m) (publish_push m) publish time_step w actions r sent
        step_job-KeepsModules publish_push-KeepsModules servos

  pub step_robot_job-modules :
      (publish : Float → Robot × List (List ℕ) → Robot × List (List ℕ)) (time_step : Float)
      (w : Readings) (actions : Schedule Job) (r : Robot) (sent : List (List ℕ))
      → ((t : Float) (v : Robot × List (List ℕ)) → (publish t v).0.modules ≡ v.0.modules)
      → length r.modules.has_servo ≡ 3
      → (step_robot m
          (step_job m)
          (publish_push m)
          publish
          time_step
          w
          actions
          (r, sent)).1.0.modules
        ≡ r.modules
  step_robot_job-modules publish time_step w actions r sent keeps servos =
      step_robot-modules m (step_job m) (publish_push m) publish time_step w actions r sent
        step_job-KeepsModules publish_push-KeepsModules keeps servos
