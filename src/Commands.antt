-- ===== src/Commands.antt =====
-- robomaster_sim/include/command.hpp and src/command.cpp: the command server's own state, that is
-- the connection with the SDK client, the publishers that it subscribed to and its events.
pub mod Topics
pub mod Events
pub mod Step
pub mod Publishers
pub mod Reachable
pub mod Subjects
pub mod Connection
pub mod Published
use msde_robotics.Prelude.{
  ℕ, ◌+◌, ◌%◌, List, [], ◌∷◌, ◌++◌, Bool, true, false, ◌&&◌, ◌||◌, ◌==◌, Option, none, some, map,
  if◌then◌else◌,
}
use msde_robotics.Prelude.SortedMap.{lookup, emplace, erase, update}
use msde_robotics.Wire.Bytes.{key_from, Float}
use msde_robotics.Messages.Subscriber.{AddSubMsg, DelMsg}
use Topics.{Topic, new_topic, start}

pub record VisionEvent : Type 0 where
  pub sender : ℕ
  pub receiver : ℕ
  pub type : ℕ

-- `streaming` is the flag of the robot's camera, and `streamer_active` that of the video streamer,
-- which a lost connection stops too.
pub record Commands : Type 0 where
  pub publishers : List (ℕ × Topic)
  pub vision_event : Option VisionEvent
  pub armor_hit_event : Option ℕ
  pub ir_hit_event : Option ℕ
  pub enable_armor_hits : Bool
  pub enable_ir_hits : Bool
  pub last_heartbeat : Float
  pub time : Float
  pub connected : Bool
  pub streaming : Bool
  pub streamer_active : Bool

-- The uids of the subjects that the constructor registers, in its order.
pub subject_uids : List ℕ
subject_uids =
    0x0002000949a4009c ∷ 0x00020009c14cb7c5 ∷ 0x000200096b986306 ∷ 0x00020009a7985b8d
    ∷ 0x00020009eeb7cece ∷ 0x000200094a2c6d55 ∷ 0x000200094fcb1146 ∷ 0x000200096862229f
    ∷ 0x0002000988223568 ∷ 0x0002000926abd64d ∷ 0x00020009124d156a ∷ 0x000200095f0059e7
    ∷ 0x0002000986e4c05a ∷ 0x00020009f79b3c97 ∷ 0x00020009eebb9ffc ∷ []

unfoldable pub add_subscriber_node : ℕ → Commands → Commands
add_subscriber_node node_id c = record c {
  armor_hit_event = if c.enable_armor_hits then some node_id else c.armor_hit_event;
  ir_hit_event = if c.enable_ir_hits then some node_id else c.ir_hit_event;
  last_heartbeat = c.time;
  connected = true;
}

unfoldable pub got_heartbeat : Commands → Commands
got_heartbeat c = record c { last_heartbeat = c.time }

unfoldable pub unconnect : Commands → Commands
unconnect c = record c {
  streaming = false;
  streamer_active = false;
  armor_hit_event = none;
  ir_hit_event = none;
  vision_event = none;
  publishers = [];
  connected = false;
}

unfoldable pub reset_subscriber_node : ℕ → Commands → Commands
unfolding unconnect
reset_subscriber_node node_id c = unconnect c

unfoldable pub set_enable_sdk : Bool → Commands → Commands
set_enable_sdk value c = if value then c else record c {
  armor_hit_event = none;
  ir_hit_event = none;
  vision_event = none;
  publishers = [];
}

-- The type is truncated by the constructor of `VisionEvent`.
unfoldable pub set_vision_request : ℕ → ℕ → ℕ → Commands → Commands
set_vision_request sender receiver type c = record c {
  vision_event = some (record { sender = sender; receiver = receiver; type = type % 256 });
}

unfoldable pub is_subject : ℕ → List ℕ → Bool
is_subject uid [] = false
is_subject uid (u ∷ us) = u == uid || is_subject uid us

-- `emplace` keeps a publisher that is there; the one that is there after it is started.
unfoldable pub create_publisher : ℕ → AddSubMsg → Commands → Commands
create_publisher uid request c =
    let key = key_from request.node_id request.msg_id in
    if is_subject uid subject_uids
    then record c {
      publishers = update key start (emplace key (new_topic request uid) c.publishers);
    }
    else c

-- `AddSubMsg::answer`, over the first `sub_data_num` uids of the list, which has that many.
unfoldable pub create_publishers : List ℕ → AddSubMsg → Commands → Commands
unfolding create_publisher
create_publishers [] request c = c
create_publishers (uid ∷ uids) request c =
    create_publishers uids request (create_publisher uid request c)

unfoldable pub answer_add_sub : AddSubMsg → Commands → Commands
unfolding create_publishers
answer_add_sub request c = create_publishers request.sub_uid_list request c

unfoldable pub stop_publisher : DelMsg → Commands → Commands
stop_publisher request c = record c {
  publishers = erase (key_from request.node_id request.msg_id) c.publishers;
}
