-- ===== src/Commands/Step.antt =====
-- robomaster_sim/src/command.cpp: `Commands::do_step`, which publishes, pushes the events and
-- watches the heartbeat.
use msde_robotics.Prelude.{ℕ, List, [], ◌∷◌, ◌++◌, Bool, ◌&&◌, Option, none, some, if◌then◌else◌}
use msde_robotics.Wire.Bytes.{◌>>=◌, Float}
use msde_robotics.Robot.Platform.{Arithmetic, three_d}
use msde_robotics.Commands.Topics.{Topic, step_topic}
use msde_robotics.Commands.Events.{
  ArmorHit, IrHit, DetectedObjects, step_armor_hit_event, step_ir_hit_event, step_vision_event,
}
use msde_robotics.Commands.{Commands, unconnect}

-- What the robot shows to a step: the data of each subject, the field `enabled` of its vision, the
-- detected objects and the hits. `seq_id` is the uninitialised field of the pushed events.
pub record Observed : Type 0 where
  pub subject_data : ℕ → List ℕ
  pub enabled : ℕ
  pub objects : DetectedObjects
  pub hits : List ArmorHit
  pub ir_hits : List IrHit
  pub seq_id : ℕ

abbrev pub when_some {ℓ κ} : {A : Type ℓ} {B : Type κ} → Option A → (A → List B) → List B
when_some none f = []
when_some (some a) f = f a

unfoldable pub step_events : Observed → Commands → List (List ℕ)
unfolding step_armor_hit_event step_ir_hit_event step_vision_event
step_events o c =
    when_some c.vision_event
      (λ v. step_vision_event o.seq_id v.sender v.receiver v.type o.enabled o.objects)
    ++ when_some c.armor_hit_event (λ node_id. step_armor_hit_event o.seq_id node_id o.hits)
    ++ when_some c.ir_hit_event (λ node_id. step_ir_hit_event o.seq_id node_id o.ir_hits)

module _ (fp : Arithmetic) where
  open fp use {add, sub, widen, lt_double}

  -- The loop over the publishers; `fuel` is that of each topic's own loop.
  unfoldable pub step_publishers :
      ℕ → (ℕ → List ℕ) → Float → List (ℕ × Topic) → Option (List (ℕ × Topic) × List (List ℕ))
  unfolding step_topic
  step_publishers fuel subject_data time_step [] = some ([], [])
  step_publishers fuel subject_data time_step ((key, topic) ∷ rest) = do
    first ← step_topic fp fuel subject_data time_step topic
    others ← step_publishers fuel subject_data time_step rest
    some ((key, first.0) ∷ others.0, first.1 ++ others.1)

  unfoldable pub is_lost : Commands → Bool
  is_lost c = c.connected && lt_double three_d (widen (sub c.time c.last_heartbeat))

  unfoldable pub check_heartbeat : Float → Commands → Commands
  unfolding is_lost unconnect
  check_heartbeat time_step c =
      let c' : Commands = record c { time = add c.time time_step } in
      if is_lost c' then unconnect c' else c'

  -- The frames that are sent, in order. No event listens to the serial port.
  unfoldable pub do_step : ℕ → Observed → Float → Commands → Option (Commands × List (List ℕ))
  unfolding step_publishers step_events check_heartbeat
  do_step fuel o time_step c = do
    published ← step_publishers fuel o.subject_data time_step c.publishers
    some (
      check_heartbeat time_step (record c { publishers = published.0 }),
      published.1 ++ step_events o c,
    )
