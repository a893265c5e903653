-- ===== src/Server/Answers/Total.antt =====
-- Which requests are answered.
use msde_robotics.Prelude.{
  ℕ, ◌/◌, ◌%◌, ◌≡◌, refl, Bool, true, false, ◌||◌, ◌==◌, List, [], ◌∷◌, map, Option, none, some,
  Option-cases, inl, inr, Bool-cases, arith, length, if◌then◌else◌,
}
use msde_robotics.Wire.Bytes.{key_from}
use msde_robotics.Wire.Frame.{RequestT, encode_msg, contents, Decoded, accepted}
use msde_robotics.Messages.Registry.{Request, Parser, registered, find_callback}
use msde_robotics.Robot.Maths.{Math}
use msde_robotics.Server.World.{World, Unset, start_job}
use msde_robotics.Server.{callback, reply_frame, answer_decoded, send}
use msde_robotics.Server.Answers.{
  answer, speed_mode_frame, speed_mode_callback, command_handler, command_callbacks,
}
use msde_robotics.Server.Answers.System.{
  answer_get_version_rm, answer_get_product_version, answer_get_sn, answer_get_robot_mode,
  answer_sdk_heart_beat, answer_set_sdk_mode, answer_subscribe_add_node, answer_sub_node_reset,
  reply_add_sub_msg, answer_del_msg, answer_vision_detect_enable, answer_vision_detect_status,
  answer_vision_set_color, answer_sensor_get_data, answer_play_sound, answer_set_robot_mode,
  answer_stream_ctrl,
}
use msde_robotics.Server.Answers.Motion.{
  answer_chassis_set_work_mode, answer_gimbal_ctrl, answer_set_wheel_speed,
  answer_chassis_speed_mode, answer_position_move, answer_gimbal_ctrl_speed, answer_gimbal_rotate,
  answer_gimbal_recenter,
}
use msde_robotics.Server.Answers.Devices.{
  answer_servo_mode_set, answer_set_system_led, answer_blaster_set_led, answer_gripper_ctrl,
  answer_robotic_arm_move_ctrl, answer_robotic_arm_get_postion, answer_servo_get_angle,
  answer_servo_control, answer_servo_ctrl_set,
}

-- All but a GimbalCtrl with an order that is neither SUSPEND nor RESUME.
abbrev pub is_answered : Request → Bool
is_answered (Request.gimbal_ctrl q) = q.order_code == 0x2ab5 || q.order_code == 0x7ef2
is_answered _ = true

abbrev is_some_payload : Option (List ℕ) → Bool
is_some_payload none = false
is_some_payload (some payload) = true

abbrev is_reply : World × Option (List ℕ) → Bool
is_reply reply = is_some_payload reply.1

module _ (m : Math) (u : Unset) (supported : ℕ → ℕ → Bool) (starts : Bool → Bool) (w : World) where
  answer-is_answered : (q : Request) → is_reply (answer m u supported starts q w) ≡ is_answered q
  unfolding answer answer_get_version_rm answer_get_product_version answer_get_sn
      answer_get_robot_mode answer_sdk_heart_beat answer_set_sdk_mode answer_subscribe_add_node
      answer_sub_node_reset reply_add_sub_msg answer_del_msg answer_vision_detect_enable
      answer_vision_detect_status answer_vision_set_color answer_sensor_get_data answer_play_sound
      answer_set_robot_mode answer_stream_ctrl answer_chassis_set_work_mode answer_gimbal_ctrl
      answer_set_wheel_speed answer_chassis_speed_mode answer_position_move answer_gimbal_ctrl_speed
      answer_gimbal_rotate answer_gimbal_recenter answer_servo_mode_set answer_set_system_led
      answer_blaster_set_led answer_gripper_ctrl answer_robotic_arm_move_ctrl
      answer_robotic_arm_get_postion answer_servo_get_angle answer_servo_control
      answer_servo_ctrl_set start_job
  answer-is_answered (Request.play_sound q) = ground arith
  answer-is_answered (Request.position_move q) = ground arith
  answer-is_answered (Request.stream_ctrl q) = ground arith
  answer-is_answered (Request.servo_get_angle q) = ground arith
  answer-is_answered (Request.servo_mode_set q) = ground arith
  answer-is_answered (Request.servo_control q) = ground arith
  answer-is_answered (Request.servo_ctrl_set q) = ground arith
  answer-is_answered (Request.gimbal_ctrl q) = ground arith
  answer-is_answered (Request.gimbal_rotate q) = ground arith
  answer-is_answered (Request.gimbal_recenter q) = ground arith
  answer-is_answered (Request.robotic_arm_move_ctrl q) = ground arith
  answer-is_answered _ = refl

abbrev change_some : {A B : Type 0} → (A → B) → Option A → Option B
change_some f none = none
change_some f (some a) = some (f a)

find_callback-map :
    {A B : Type 0} (f : ℕ → A → B) (key : ℕ) (l : List (ℕ × A))
    → find_callback key (map (λ entry. (entry.0, f entry.0 entry.1)) l)
      ≡ change_some (f key) (find_callback key l)
unfolding find_callback
find_callback-map f key [] = refl
find_callback-map f key ((k, a) ∷ l) = elim (Option-cases (find_callback key l)) [
  | inl e ↦ rw (find_callback-map f key l, e) (grind arith)
  | inr (b, e) ↦ rw (find_callback-map f key l, e) refl
]

pub request_in : Decoded → RequestT
request_in d = record {
  attri = d.attri;
  sender = d.sender;
  receiver = d.receiver;
  seq_id = d.seq_id;
}

speed_mode_frame-length :
    (q : RequestT) (set cmd : ℕ) (payload : Option (List ℕ)) (b : Bool)
    → is_some_payload payload ≡ b
    → length (send (speed_mode_frame q set cmd payload)) ≡ (if b then 1 else 0)
unfolding send encode_msg contents speed_mode_frame
speed_mode_frame-length q set cmd none b e = rw⁻¹ e refl
speed_mode_frame-length q set cmd (some p) b e = rw⁻¹ e refl

reply_frame-length :
    (q : RequestT) (set cmd : ℕ) (payload : Option (List ℕ)) (b : Bool)
    → is_some_payload payload ≡ b
    → length (send (reply_frame q set cmd payload)) ≡ (if b then 1 else 0)
unfolding send encode_msg contents reply_frame
reply_frame-length q set cmd none b e = rw⁻¹ e refl
reply_frame-length q set cmd (some p) b e = rw⁻¹ e refl

module _ (m : Math) (u : Unset) (supported : ℕ → ℕ → Bool) (starts : Bool → Bool) (w : World)
    (d : Decoded) (read : Parser) (q : Request) where
  Answers : Option (World × List ℕ) → Type 0
  Answers result =
      (reply : List ℕ) × (result ≡ some ((answer m u supported starts q w).0, reply))
      × (length (send reply) ≡ (if is_answered q then 1 else 0))

  speed_mode_answers :
      (set cmd : ℕ)
      → read (request_in d) d.payload ≡ some q
      → speed_mode_callback m u supported starts read set cmd d.sender d.receiver d.seq_id d.attri
          d.payload w
        ≡ some (
          (answer m u supported starts q w).0,
          speed_mode_frame (request_in d) set cmd (answer m u supported starts q w).1,
        )
  unfolding speed_mode_callback request_in
  speed_mode_answers set cmd reads = rw reads refl

  callback_answers_all :
      (set cmd : ℕ)
      → read (request_in d) d.payload ≡ some q
      → callback read
          (answer m u supported starts)
          set
          cmd
          d.sender
          d.receiver
          d.seq_id
          d.attri
          d.payload
          w
        ≡ some (
          (answer m u supported starts q w).0,
          reply_frame (request_in d) set cmd (answer m u supported starts q w).1,
        )
  unfolding callback request_in
  callback_answers_all set cmd reads = rw reads refl

  command_handler-Answers :
      (key : ℕ)
      → read (request_in d) d.payload ≡ some q
      → Answers (
          command_handler m u supported starts key read d.sender d.receiver d.seq_id d.attri
            d.payload w)
  unfolding Answers command_handler speed_mode_callback callback
  command_handler-Answers key reads =
      let total = answer-is_answered m u supported starts w q in
      elim (Bool-cases (key == key_from 0x3f 0x21)) [
        | inl e ↦
            rw (e, speed_mode_answers 0x3f 0x21 reads)
              (_, refl, speed_mode_frame-length _ _ _ _ _ total)
        | inr e ↦
            rw (e, callback_answers_all (key / 256) (key % 256) reads)
              (_, refl, reply_frame-length _ _ _ _ _ total)
      ]

-- Where the frame's message is registered and its parser reads the request, the server changes its
-- state as the request's answer says. It replies with one datagram, unless the request is a
-- GimbalCtrl with an order that is neither SUSPEND nor RESUME, to which it does not reply.
pub answer_decoded-command_callbacks :
    (m : Math) (u : Unset) (supported : ℕ → ℕ → Bool) (starts : Bool → Bool) (w : World)
    (d : Decoded) (read : Parser) (q : Request)
    → find_callback (key_from d.cmd_set d.cmd_id) registered ≡ some read
    → read (request_in d) d.payload ≡ some q
    → (reply : List ℕ) × (answer_decoded (command_callbacks m u supported starts) (accepted d) w
        ≡ some ((answer m u supported starts q w).0, reply))
      × (length (send reply) ≡ (if is_answered q then 1 else 0))
unfolding answer_decoded command_callbacks Answers
answer_decoded-command_callbacks m u supported starts w d read q found reads =
    let key = key_from d.cmd_set d.cmd_id in
    let stored = find_callback-map (command_handler m u supported starts) key registered in
    rw (answer_decoded, stored, found)
      (command_handler-Answers m u supported starts w d read q key reads)
