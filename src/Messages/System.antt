-- ===== src/Messages/System.antt =====
-- robomaster_sim/include/command_messages.hpp: the requests of the SDK session, the robot mode and sounds.
use msde_robotics.Prelude.{ℕ, List, Option, some, ◌/◌, ◌^◌, bit_and}
use msde_robotics.Wire.Bytes.{◌>>=◌, byte, read_at}
use msde_robotics.Wire.Frame.{RequestT}

pub record GetVersionRm : Type 0 where
  pub request : RequestT

unfoldable pub read_get_version_rm : RequestT → List ℕ → Option GetVersionRm
read_get_version_rm request buffer = some (record { request = request })

pub record GetProductVersion : Type 0 where
  pub request : RequestT
  pub file_type : ℕ

unfoldable pub read_get_product_version : RequestT → List ℕ → Option GetProductVersion
read_get_product_version request buffer = do
  file_type ← byte 0 buffer
  some (record { request = request; file_type = file_type })

pub record GetSn : Type 0 where
  pub request : RequestT
  pub type : ℕ

unfoldable pub read_get_sn : RequestT → List ℕ → Option GetSn
read_get_sn request buffer = do
  type ← byte 0 buffer
  some (record { request = request; type = type })

pub record SetRobotMode : Type 0 where
  pub request : RequestT
  pub mode : ℕ

unfoldable pub read_set_robot_mode : RequestT → List ℕ → Option SetRobotMode
read_set_robot_mode request buffer = do
  mode ← byte 0 buffer
  some (record { request = request; mode = mode })

pub record GetRobotMode : Type 0 where
  pub request : RequestT

unfoldable pub read_get_robot_mode : RequestT → List ℕ → Option GetRobotMode
read_get_robot_mode request buffer = some (record { request = request })

pub record SdkHeartBeat : Type 0 where
  pub request : RequestT

unfoldable pub read_sdk_heart_beat : RequestT → List ℕ → Option SdkHeartBeat
read_sdk_heart_beat request buffer = some (record { request = request })

pub record SetSdkMode : Type 0 where
  pub request : RequestT
  pub enable : ℕ

unfoldable pub read_set_sdk_mode : RequestT → List ℕ → Option SetSdkMode
read_set_sdk_mode request buffer = do
  enable ← byte 0 buffer
  some (record { request = request; enable = enable })

pub record SubscribeAddNode : Type 0 where
  pub request : RequestT
  pub node_id : ℕ
  pub sub_vision : ℕ

unfoldable pub read_subscribe_add_node : RequestT → List ℕ → Option SubscribeAddNode
read_subscribe_add_node request buffer = do
  node_id ← byte 0 buffer
  sub_vision ← read_at 4 1 buffer
  some (record { request = request; node_id = node_id; sub_vision = sub_vision })

pub record SubNodeReset : Type 0 where
  pub request : RequestT
  pub node_id : ℕ

unfoldable pub read_sub_node_reset : RequestT → List ℕ → Option SubNodeReset
read_sub_node_reset request buffer = do
  node_id ← byte 0 buffer
  some (record { request = request; node_id = node_id })

pub record PlaySound : Type 0 where
  pub request : RequestT
  pub action_id : ℕ
  pub task_ctrl : ℕ
  pub push_freq : ℕ
  pub sound_id : ℕ
  pub play_ctrl : ℕ
  pub interval : ℕ
  pub play_times : ℕ

unfoldable pub read_play_sound : RequestT → List ℕ → Option PlaySound
read_play_sound request buffer = do
  action_id ← byte 0 buffer
  task_ctrl ← byte 1 buffer
  push_freq ← byte 1 buffer
  sound_id ← read_at 4 2 buffer
  play_ctrl ← byte 6 buffer
  interval ← read_at 2 7 buffer
  play_times ← byte 9 buffer
  some (record {
    request = request;
    action_id = action_id;
    task_ctrl = bit_and task_ctrl 0x3;
    push_freq = push_freq / 2 ^ 2;
    sound_id = sound_id;
    play_ctrl = play_ctrl;
    interval = interval;
    play_times = play_times;
  })
