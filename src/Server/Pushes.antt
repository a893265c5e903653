-- ===== src/Server/Pushes.antt =====
-- robomaster_sim/include/action.hpp: the actions that a client starts, which push their progress.
pub mod Mounted
use msde_robotics.Prelude.{
  ℕ, ◌+◌, ◌*◌, ◌%◌, ◌^◌, Bool, true, false, ◌||◌, ◌==◌, List, ◌∷◌, ◌++◌, if◌then◌else◌, bit_or,
  replicate, Option, none, some,
}
use msde_robotics.Prelude.Int.{ℤ, pos_part, pattern_of, neg}
use msde_robotics.Wire.Bytes.{Float, write}
use msde_robotics.Wire.Frame.{ResponseT, RequestT, reply_to, encode_msg}
use msde_robotics.Robot.Platform.{zero_f, one_f}
use msde_robotics.Robot.Maths.{Math, rad2deg}
use msde_robotics.Robot.Action.{State, succeed, state_code, Action, done}
use msde_robotics.Robot.Machine.{Robot}
use msde_robotics.Robot.Tasks.{
  Task, move_base, move_arm, play_sound, move_servo, move_gimbal, with_body, step_task,
}
use msde_robotics.Server.{send}

-- The fields of `ActionSDK<T>`. `unset` is what the memory of a field of the push holds that
-- `update_msg` does not set, the sound's `error_reason` and the gimbal's `roll`.
pub record Push : Type 0 where
  pub response : ResponseT
  pub action_id : ℕ
  pub frequency : Float
  pub deadline : Float
  pub unset : ℕ

-- An action of the robot's own has no push.
pub record Job : Type 0 where
  pub task : Task
  pub push : Option Push

-- The push of a request: `is_ack`, `need_ack` and `seq_id` are set to 0 and the deadline is 0.
unfoldable pub new_push : RequestT → ℕ → Float → ℕ → Push
new_push request action_id frequency unset = record {
  response = record (reply_to request) { is_ack = 0; need_ack = 0; seq_id = 0 };
  action_id = action_id;
  frequency = frequency;
  deadline = zero_f;
  unset = unset;
}

-- The set and the command are those of the task's `Proto`.
unfoldable pub push_command : Task → ℕ
push_command (move_base b) = 0x2a
push_command (move_arm b) = 0xb6
push_command (play_sound b) = 0xb4
push_command (move_servo b) = 0xb8
push_command (move_gimbal b) = 0xb1

-- Whether `update_msg` increments the sequence number and reports 100 percent at the end.
abbrev pub counts : Task → Bool
counts (move_base b) = true
counts (move_arm b) = true
counts _ = false

abbrev is_succeed : State → Bool
is_succeed succeed = true
is_succeed _ = false

module _ (m : Math) where
  open m use {fp, to_ℤ, sub_double, round_double}
  open fp use {add, sub, mul, div, le, widen}

  abbrev rounded : Float → ℤ
  rounded v = to_ℤ (round_double (widen v))

  -- 100 - round(100.0f * remaining / predicted), not below 0, as a byte; 0x42c8_0000 is 100.0f and
  -- 0x4059_0000_0000_0000 is 100.0.
  unfoldable pub percent : Action Job → ℕ
  percent a =
      let passed = div (mul 0x42c8_0000 a.remaining_duration) a.predicted_duration in
      if counts a.body.task
      then if is_succeed a.state
        then 100
        else pos_part (to_ℤ (sub_double 0x4059_0000_0000_0000 (round_double (widen passed)))) % 256
      else pos_part (to_ℤ (sub_double 0x4059_0000_0000_0000 (round_double (widen passed)))) % 256

  -- `servo_angle_value` for a servo with the direction 1 or -1 and the reset angle `reset`.
  abbrev angle_value : Float → Float → Float → ℤ
  angle_value direction reset angle =
      let unit = mul direction 0x43a2_f983 in
      rounded (add (mul unit angle) (sub 0x4480_0000 (mul unit reset)))

  -- The left servo has the index 0; `ArmServoValues` has no other index than 0 and 1.
  unfoldable pub servo_angle_value : ℕ → Float → ℤ
  servo_angle_value index angle =
      if index == 0
      then angle_value one_f 0x3d96_2068 angle
      else angle_value 0xbf80_0000 0xbe8c_4bd3 angle

  -- The bytes behind the action's id, the percentage and the state. 0x447a_0000 is 1000.0f and
  -- 0x4120_0000 is 10.0f.
  unfoldable pub push_values : Task → Robot → ℕ → List ℕ
  unfolding servo_angle_value
  push_values (move_base b) r unset =
      let pose = r.chassis.odometry.pose in
      write 2 (pattern_of 16 (rounded (mul 0x42c8_0000 pose.x)))
      ++ write 2 (pattern_of 16 (neg (rounded (mul 0x42c8_0000 pose.y))))
      ++ write 2 (pattern_of 16 (rounded (mul 0x4120_0000 (rad2deg m pose.theta))))
  push_values (move_arm b) r unset =
      write 4 (pattern_of 32 (rounded (mul 0x447a_0000 r.arm_position.x)))
      ++ write 4 (pattern_of 32 (rounded (mul 0x447a_0000 r.arm_position.z)))
  push_values (play_sound b) r unset = write 4 b.sound_id ++ replicate 4 7
  push_values (move_servo b) r unset =
      write 4 (pattern_of 32 (servo_angle_value b.servo_id b.current_angle))
  push_values (move_gimbal b) r unset =
      write 2 (pattern_of 16 (rounded (rad2deg m (mul 0x4120_0000 b.current.yaw))))
      ++ write 2 unset
      ++ write 2 (pattern_of 16 (rounded (rad2deg m (mul 0x4120_0000 b.current.pitch))))

  -- The sound's state shares its byte with the reason of an error.
  unfoldable pub push_state : Task → State → ℕ → ℕ
  push_state (play_sound b) state unset = bit_or (unset * 4 % 256) (state_code state)
  push_state _ state unset = state_code state

  -- `update_msg`, then `encode_msg`.
  unfoldable pub push_frame : Push → Action Job → Robot → List ℕ
  unfolding percent push_values push_state push_command
  push_frame p a r =
      let task = a.body.task in
      let payload =
        p.action_id ∷ percent a ∷ push_state task a.state p.unset ∷ push_values task r p.unset in
      encode_msg p.response payload 0x3f (push_command task)

  -- The push of an action that is done or whose deadline is due.
  abbrev next_push : Float → Action Job → Push → Push
  next_push left a p = record p {
    deadline = add left (div one_f p.frequency);
    response =
        if counts a.body.task
        then record p.response { seq_id = (p.response.seq_id + 1) % 2 ^ 16 }
        else p.response;
  }

  -- `ActionSDK::publish`, the callback of the action. The frames are those sent in this step.
  unfoldable pub publish_push :
      Float → Action Job → Robot × List (List ℕ) → Action Job × (Robot × List (List ℕ))
  unfolding push_frame
  publish_push time_step a (r, sent) = elim a.body.push [
    | none ↦ (a, (r, sent))
    | some p ↦
        let left = sub p.deadline time_step in
        let next = next_push left a p in
        if done a || le left zero_f
        then (
          record a { body = record a.body { push = some next } },
          (r, sent ++ send (push_frame next a r)),
        )
        else (
          record a { body = record a.body { push = some (record p { deadline = left }) } },
          (r, sent),
        )
  ]

  -- The virtual `do_step` of the task.
  unfoldable pub step_job :
      Float → Action Job → Robot × List (List ℕ) → Action Job × (Robot × List (List ℕ))
  step_job time_step a (r, sent) =
      let next = step_task m time_step (with_body a.body.task a) r in
      (with_body (record a.body { task = next.0.body }) next.0, (next.1, sent))
