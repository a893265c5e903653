-- ===== src/Plugin/Steps.antt =====
-- robomaster_sim/coppeliaSim_plugin/plugin.cpp: the plugin's step, `onSimulationBeforeActuation`.
pub mod Forwarded
pub mod Placed
pub mod Together
use msde_robotics.Prelude.{ℕ, List, [], ◌∷◌, ◌++◌, Option, none, some}
use msde_robotics.Wire.Bytes.{◌>>=◌, Float}
use msde_robotics.Robot.Maths.{Math}
use msde_robotics.Robot.Machine.{Robot}
use msde_robotics.Robot.Steps.{step_robot}
use msde_robotics.Server.Pushes.{step_job, publish_push}
use msde_robotics.Plugin.Bridge.{Call, forward_outputs}
use msde_robotics.Plugin.Bridge.Reads.{Scene, read_scene}
use msde_robotics.Plugin.Registry.{Member, Registry}

-- What the simulator shows to the robot with a handle, and the robot's callbacks, which its
-- interface adds. `yaw` is what the memory of a reading holds.
pub record Surroundings : Type 0 where
  pub scene : ℕ → Scene
  pub interface_step : ℕ → Float → Robot × List (List ℕ) → Robot × List (List ℕ)
  pub yaw : Float

-- The robot, the calls of the simulator and the frames that are sent.
abbrev pub Stepped : Type 0 → Type 0
Stepped A = A × List Call × List (List ℕ)

module _ (m : Math) (s : Surroundings) (time_step : Float) where
  -- `none` is an exception.
  unfoldable pub step_member : ℕ → Member → Option (Stepped Member)
  step_member handle member = do
    readings ← read_scene m s.yaw (s.scene handle) member.handles member.sight member.robot
    let stepped =
        step_robot m (step_job m) (publish_push m) (s.interface_step handle) time_step readings
          member.schedule (member.robot, [])
    calls ← forward_outputs m member.handles stepped.2
    some (record member { robot = stepped.1.0; schedule = stepped.0 }, calls, stepped.1.1)

  unfoldable pub step_members : List (ℕ × Member) → Option (Stepped (List (ℕ × Member)))
  unfolding step_member
  step_members [] = some ([], [], [])
  step_members ((handle, member) ∷ rest) = do
    first ← step_member handle member
    others ← step_members rest
    some ((handle, first.0) ∷ others.0, first.1 ++ others.1, first.2 ++ others.2)

  unfoldable pub step_plugin : Registry → Option (Stepped Registry)
  unfolding step_members
  step_plugin st = do
    stepped ← step_members st.robots
    some (record st { robots = stepped.0 }, stepped.1, stepped.2)
