-- ===== src/Server/Answers/System.antt =====
-- robomaster_sim/include/command_messages.hpp and src/command.cpp: the answers to the requests about
-- the robot as a whole, the SDK, the subscriptions and the camera.
use msde_robotics.Prelude.{
  ℕ, ◌%◌, Bool, false, not, ◌==◌, List, [], ◌∷◌, if◌then◌else◌, Option, some,
}
use msde_robotics.Prelude.SortedMap.{assign}
use msde_robotics.Robot.Maths.{Math}
use msde_robotics.Robot.Action.{push_freq}
use msde_robotics.Robot.Sound.{play_sound_action}
use msde_robotics.Robot.Schedule.{submit_play_sound}
use msde_robotics.Robot.Tasks.{Task}
use msde_robotics.Robot.Setters
use msde_robotics.Robot.Devices.{set_enable}
use msde_robotics.Messages.System.{
  SetSdkMode, SetRobotMode, SubNodeReset, SubscribeAddNode, PlaySound,
}
use msde_robotics.Messages.Vision.{VisionDetectEnable, StreamCtrl, VisionSetColor}
use msde_robotics.Messages.Subscriber.{AddSubMsg, DelMsg}
use msde_robotics.Messages.Sensor.{SensorGetData}
use msde_robotics.Messages.Replies.{
  encode_accept, encode_get_version_rm, encode_get_product_version, encode_get_sn,
  encode_get_robot_mode, encode_subscribe_add_node, encode_add_sub_msg, encode_vision_detect_status,
  encode_sensor_get_data,
}
use msde_robotics.Commands.{
  add_subscriber_node, got_heartbeat, reset_subscriber_node, set_vision_request, answer_add_sub,
  stop_publisher,
}
use msde_robotics.Commands
use msde_robotics.Server.Pushes.{new_push}
use msde_robotics.Server.World.{World, Unset, on_robot, on_commands, acknowledged, start_job}

abbrev pub Reply : Type 0
Reply = World × Option (List ℕ)

-- "serial_1234"
abbrev serial_1234 : List ℕ
serial_1234 = 115 ∷ 101 ∷ 114 ∷ 105 ∷ 97 ∷ 108 ∷ 95 ∷ 49 ∷ 50 ∷ 51 ∷ 52 ∷ []

unfoldable pub answer_get_version_rm : World → Reply
answer_get_version_rm w = (w, some (encode_get_version_rm 0 1 2 3))

unfoldable pub answer_get_product_version : World → Reply
answer_get_product_version w = (w, some (encode_get_product_version 0 1 2))

unfoldable pub answer_get_sn : World → Reply
answer_get_sn w = (w, some (encode_get_sn serial_1234))

-- The reply's field is a byte.
unfoldable pub answer_get_robot_mode : World → Reply
answer_get_robot_mode w = (w, some (encode_get_robot_mode (w.robot.mode % 256)))

unfoldable pub answer_sdk_heart_beat : World → Reply
answer_sdk_heart_beat w = acknowledged (on_commands got_heartbeat w)

unfoldable pub answer_set_sdk_mode : SetSdkMode → World → Reply
answer_set_sdk_mode request w =
    let enable = not (request.enable == 0) in
    acknowledged
      (on_commands (Commands.set_enable_sdk enable) (on_robot (Setters.set_enable_sdk enable) w))

unfoldable pub answer_subscribe_add_node : Unset → SubscribeAddNode → World → Reply
answer_subscribe_add_node u request w =
    (on_commands (add_subscriber_node request.node_id) w, some (encode_subscribe_add_node u.reply))

unfoldable pub answer_sub_node_reset : SubNodeReset → World → Reply
answer_sub_node_reset request w =
    acknowledged (on_commands (reset_subscriber_node request.node_id) w)

unfoldable pub reply_add_sub_msg : Unset → AddSubMsg → World → Reply
reply_add_sub_msg u request w =
    (on_commands (answer_add_sub request) w, some (encode_add_sub_msg u.reply))

unfoldable pub answer_del_msg : DelMsg → World → Reply
answer_del_msg request w = acknowledged (on_commands (stop_publisher request) w)

-- `set_enable` takes a byte.
unfoldable pub answer_vision_detect_enable : VisionDetectEnable → World → Reply
answer_vision_detect_enable request w =
    let enabled = set_enable (request.type % 256) w.robot.vision_enabled in
    let q = request.request in
    acknowledged (
      on_commands (set_vision_request q.sender q.receiver request.type)
        (on_robot (λ r. record r { vision_enabled = enabled }) w))

unfoldable pub answer_vision_detect_status : World → Reply
answer_vision_detect_status w = (w, some (encode_vision_detect_status w.robot.vision_enabled))

-- `Vision::set_color`, for a line, detector 4, and a marker, detector 5.
unfoldable pub answer_vision_set_color : VisionSetColor → World → Reply
answer_vision_set_color request w = acknowledged (record w {
  colors =
      if request.type == 1
      then assign 4 request.color w.colors
      else if request.type == 2
      then assign 5 request.color w.colors
      else w.colors;
})

unfoldable pub answer_sensor_get_data : SensorGetData → World → Reply
answer_sensor_get_data request w = (
  w,
  some (encode_sensor_get_data (record { port = request.port; adc = 548; io = 0; time = 793503 })),
)

unfoldable pub answer_play_sound : Unset → PlaySound → World → Reply
answer_play_sound u request w =
    let push = new_push request.request request.action_id (push_freq request.push_freq) u.push in
    if request.play_ctrl == 1
    then start_job Task.play_sound push (play_sound_action request.sound_id request.play_times)
        submit_play_sound w
    else (w, some (encode_accept u.reply))

module _ (m : Math) where
  unfoldable pub answer_set_robot_mode : SetRobotMode → World → Reply
  answer_set_robot_mode request w = acknowledged (on_robot (Setters.set_mode m request.mode) w)

  -- `supported` is the simulator's `forward_camera_resolution`, and `starts` says whether the video
  -- streamer is active once it was started, on whether it was before.
  unfoldable pub answer_stream_ctrl : (ℕ → ℕ → Bool) → (Bool → Bool) → StreamCtrl → World → Reply
  answer_stream_ctrl supported starts request w =
      let start =
        λ (width height : ℕ). (Setters.start_streaming m supported width height w.robot).0 in
      let started =
        if request.resolution == 0
        then start 1280 720
        else if request.resolution == 2
        then start 960 540
        else start 640 360 in
      let stopped = (Setters.stop_streaming w.robot).0 in
      let next = if request.state == 0 then stopped else started in
      let active =
        if request.state == 0
        then false
        else if started.camera.streaming
        then starts w.commands.streamer_active
        else w.commands.streamer_active in
      if request.ctrl == 2
      then acknowledged (record w {
        robot = next;
        commands = record w.commands {
          streaming = next.camera.streaming;
          streamer_active = active;
        };
      })
      else acknowledged w
