-- ===== src/Server/Answers.antt =====
-- robomaster_sim/src/command.cpp: the callbacks that the command server registers, each with the
-- answer of its message.
pub mod System
pub mod Motion
pub mod Devices
pub mod Total
use msde_robotics.Prelude.{
  ℕ, ◌/◌, ◌%◌, Bool, ◌==◌, List, [], ◌∷◌, map, if◌then◌else◌, Option, none, some,
}
use msde_robotics.Wire.Bytes.{◌>>=◌, key_from}
use msde_robotics.Wire.Frame.{RequestT, reply_to, encode_msg}
use msde_robotics.Messages.Registry.{Request, Parser, registered}
use msde_robotics.Messages.Registry
use msde_robotics.Robot.Maths.{Math}
use msde_robotics.Server.{Callback, callback}
use msde_robotics.Server.World.{World, Unset, acknowledged}
use System.{
  Reply, answer_get_version_rm, answer_get_product_version, answer_get_sn, answer_get_robot_mode,
  answer_sdk_heart_beat, answer_set_sdk_mode, answer_subscribe_add_node, answer_sub_node_reset,
  reply_add_sub_msg, answer_del_msg, answer_vision_detect_enable, answer_vision_detect_status,
  answer_vision_set_color, answer_sensor_get_data, answer_play_sound, answer_set_robot_mode,
  answer_stream_ctrl,
}
use Motion.{
  answer_chassis_set_work_mode, answer_gimbal_ctrl, answer_set_wheel_speed,
  answer_chassis_speed_mode, answer_position_move, answer_gimbal_ctrl_speed, answer_gimbal_rotate,
  answer_gimbal_recenter,
}
use Devices.{
  answer_servo_mode_set, answer_set_system_led, answer_blaster_set_led, answer_gripper_ctrl,
  answer_robotic_arm_move_ctrl, answer_robotic_arm_get_postion, answer_servo_get_angle,
  answer_servo_control, answer_servo_ctrl_set,
}

-- The reply to ChassisSpeedMode is always an acknowledgement that needs none.
unfoldable pub speed_mode_frame : RequestT → ℕ → ℕ → Option (List ℕ) → List ℕ
speed_mode_frame request set cmd none = []
speed_mode_frame request set cmd (some payload) =
    encode_msg (record (reply_to request) { is_ack = 1; need_ack = 0 }) payload set cmd

-- `supported` and `starts` are those of `answer_stream_ctrl`. The messages of the last line are
-- acknowledged and ignored.
module _ (m : Math) (u : Unset) (supported : ℕ → ℕ → Bool) (starts : Bool → Bool) where
  unfoldable pub answer : Request → World → Reply
  answer (Request.sdk_heart_beat q) = answer_sdk_heart_beat
  answer (Request.set_sdk_mode q) = answer_set_sdk_mode q
  answer (Request.set_robot_mode q) = answer_set_robot_mode m q
  answer (Request.get_robot_mode q) = answer_get_robot_mode
  answer (Request.sub_node_reset q) = answer_sub_node_reset q
  answer (Request.subscribe_add_node q) = answer_subscribe_add_node u q
  answer (Request.vision_detect_enable q) = answer_vision_detect_enable q
  answer (Request.chassis_speed_mode q) = answer_chassis_speed_mode m q
  answer (Request.add_sub_msg q) = reply_add_sub_msg u q
  answer (Request.del_msg q) = answer_del_msg q
  answer (Request.get_version_rm q) = answer_get_version_rm
  answer (Request.get_product_version q) = answer_get_product_version
  answer (Request.get_sn q) = answer_get_sn
  answer (Request.set_system_led q) = answer_set_system_led m q
  answer (Request.play_sound q) = answer_play_sound u q
  answer (Request.position_move q) = answer_position_move m u q
  answer (Request.set_wheel_speed q) = answer_set_wheel_speed m q
  answer (Request.gripper_ctrl q) = answer_gripper_ctrl m q
  answer (Request.robotic_arm_move_ctrl q) = answer_robotic_arm_move_ctrl m u q
  answer (Request.stream_ctrl q) = answer_stream_ctrl m supported starts q
  answer (Request.vision_detect_status q) = answer_vision_detect_status
  answer (Request.vision_set_color q) = answer_vision_set_color q
  answer (Request.sensor_get_data q) = answer_sensor_get_data q
  answer (Request.servo_get_angle q) = answer_servo_get_angle m u q
  answer (Request.servo_mode_set q) = answer_servo_mode_set q
  answer (Request.servo_control q) = answer_servo_control m q
  answer (Request.servo_ctrl_set q) = answer_servo_ctrl_set m u q
  answer (Request.gimbal_ctrl_speed q) = answer_gimbal_ctrl_speed m q
  answer (Request.gimbal_ctrl q) = answer_gimbal_ctrl q
  answer (Request.gimbal_rotate q) = answer_gimbal_rotate m u q
  answer (Request.gimbal_recenter q) = answer_gimbal_recenter m u q
  answer (Request.blaster_set_led q) = answer_blaster_set_led m q
  answer (Request.chassis_set_work_mode q) = answer_chassis_set_work_mode q
  answer (Request.robotic_arm_get_postion q) = answer_robotic_arm_get_postion m
  answer _ = acknowledged

  unfoldable pub speed_mode_callback : Parser → ℕ → ℕ → Callback World
  unfolding answer speed_mode_frame
  speed_mode_callback read set cmd sender receiver seq_id attri buffer w =
      let request : RequestT = record {
        attri = attri;
        sender = sender;
        receiver = receiver;
        seq_id = seq_id;
      } in
      do
        fields ← read request buffer
        some ((answer fields w).0, speed_mode_frame request set cmd (answer fields w).1)

  -- What `register_message` stores under a key, which is 256 * set + cmd.
  unfoldable pub command_handler : ℕ → Parser → Callback World
  unfolding speed_mode_callback
  command_handler key read =
      if key == key_from 0x3f 0x21
      then speed_mode_callback read 0x3f 0x21
      else callback read answer (key / 256) (key % 256)

  unfoldable pub command_callbacks : List (ℕ × Callback World)
  unfolding command_handler
  command_callbacks = map (λ entry. (entry.0, command_handler entry.0 entry.1)) registered
