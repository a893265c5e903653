-- ===== src/Server/World.antt =====
-- robomaster_sim: what the answers to requests change, that is the robot, its actions and the command
-- server.
use msde_robotics.Prelude.{ℕ, List, Option, some}
use msde_robotics.Wire.Bytes.{Float}
use msde_robotics.Messages.Replies.{encode_default, encode_accept}
use msde_robotics.Robot.Geometry.{Pose2D, GimbalValues}
use msde_robotics.Robot.Action.{State, accept_code, Action}
use msde_robotics.Robot.Schedule.{Schedule}
use msde_robotics.Robot.Machine.{Robot, Output}
use msde_robotics.Robot.Tasks.{Task, with_body}
use msde_robotics.Commands.{Commands}
use msde_robotics.Server.Pushes.{Push, Job}

-- `outputs` are the commands that an answer forwarded to the simulator at once, the latest last;
-- `colors` is the map of the vision's colours, by the detector's number.
pub record World : Type 0 where
  pub robot : Robot
  pub schedule : Schedule Job
  pub commands : Commands
  pub outputs : List Output
  pub colors : List (ℕ × ℕ)

unfoldable pub on_robot : (Robot → Robot) → World → World
on_robot f w = record w { robot = f w.robot }

-- An operation of the command server changes the camera's flag, which is the robot's.
unfoldable pub on_commands : (Commands → Commands) → World → World
on_commands f w =
    let c = f w.commands in
    record w {
      commands = c;
      robot = record w.robot { camera = record w.robot.camera { streaming = c.streaming } };
    }

-- What the memory of the objects holds that the source leaves uninitialised: a reply's field, a
-- push's field, an action's durations and its fields.
pub record Unset : Type 0 where
  pub reply : ℕ
  pub push : ℕ
  pub action : Action Float
  pub poses : Action (Pose2D × Pose2D)
  pub angles : Action (GimbalValues Float)

-- The payload of a reply without fields of its own.
abbrev pub acknowledged : World → World × Option (List ℕ)
acknowledged w = (w, some encode_default)

-- The action of a request, with its push. `submit_action` has the result that is passed on.
unfoldable pub start_job :
    {B : Type 0}
    → (B → Task)
    → Push
    → Action B
    → (Action Job → Schedule Job → Schedule Job × State)
    → World
    → World × Option (List ℕ)
start_job make push a submit w =
    let submitted =
      submit (with_body (record { task = make a.body; push = some push }) a) w.schedule in
    (record w { schedule = submitted.0 }, some (encode_accept (accept_code submitted.1)))
