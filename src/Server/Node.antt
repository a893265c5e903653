-- ===== src/Server/Node.antt =====
-- robomaster_sim/src/robomaster.cpp, discovery.cpp, streamer.cpp and connection.cpp: the servers of
-- one robot and their step.
use msde_robotics.Prelude.{
  ℕ, Bool, true, false, not, ◌&&◌, List, [], ◌∷◌, ◌++◌, take, replicate, if◌then◌else◌, Option,
  none, some,
}
use msde_robotics.Wire.Bytes.{◌>>=◌, Float, key_from}
use msde_robotics.Robot.Platform.{Arithmetic, zero_f}
use msde_robotics.Messages.Connection.{SetSdkConnection, read_set_sdk_connection}
use msde_robotics.Commands.{Commands}
use msde_robotics.Commands.Step
use msde_robotics.Commands.Step.{Observed}
use msde_robotics.Server.{Callback, callback}

-- A datagram that is broadcast: its port and its bytes.
pub record Datagram : Type 0 where
  pub port : ℕ
  pub bytes : List ℕ

-- `resize` to 14 characters, filled with stars.
unfoldable pub pad_serial : List ℕ → List ℕ
pad_serial value = take 14 (value ++ replicate 14 42)

pub record Discovery : Type 0 where
  pub message : List ℕ
  pub sta_conn_info_message : List ℕ
  pub period : Float
  pub deadline : Float
  pub active : Bool

unfoldable pub start_discovery : Discovery → Discovery
start_discovery d = record d { active = true; deadline = d.period }

unfoldable pub stop_discovery : Discovery → Discovery
stop_discovery d = record d { active = false }

-- `message.size() + 1` bytes: the string and the zero behind it.
unfoldable pub broadcast : Discovery → List Datagram
broadcast d =
    record { port = 40927; bytes = d.message ++ 0 ∷ [] }
    ∷ record { port = 45678; bytes = d.sta_conn_info_message }
    ∷ []

-- A streamer over UDP or TCP; `encoder` says whether there is one.
pub record Streamer : Type 0 where
  pub udp : Bool
  pub active : Bool
  pub encoder : Bool

unfoldable pub new_streamer : Bool → Streamer
new_streamer udp = record { udp = udp; active = false; encoder = false }

-- `start_socket` of the UDP streamer is active at once, that of the TCP streamer waits for a client.
unfoldable pub start_streamer : Streamer → Streamer
start_streamer s =
    if s.udp then record s { active = true; encoder = true } else record s { encoder = true }

unfoldable pub accept_client : Streamer → Streamer
accept_client s = record s { active = true }

unfoldable pub stop_streamer : Streamer → Streamer
stop_streamer s = record s { active = false; encoder = false }

-- `encode` is the video encoder. `none` is a call without an encoder.
unfoldable pub send_image : (List ℕ → List ℕ) → List ℕ → Streamer → Option (List (List ℕ))
send_image encode image s =
    if not s.active then some [] else if not s.encoder then none else some (sent (encode image))
  where
    sent : List ℕ → List (List ℕ)
    sent [] = []
    sent (b ∷ bytes) = (b ∷ bytes) ∷ []

-- `VideoStreamer::do_step`, on the camera's image.
unfoldable pub step_streamer : (List ℕ → List ℕ) → List ℕ → Streamer → Option (List (List ℕ))
unfolding send_image
step_streamer encode [] s = some []
step_streamer encode (b ∷ image) s = send_image encode (b ∷ image) s

-- The connection server answers with the address 0.0.0.0.
unfoldable pub answer_set_sdk_connection : {S : Type 0} → SetSdkConnection → S → S × Option (List ℕ)
answer_set_sdk_connection request s = (s, some (0 ∷ 2 ∷ 0 ∷ 0 ∷ 0 ∷ 0 ∷ []))

unfoldable pub connection_callbacks : {S : Type 0} → List (ℕ × Callback S)
unfolding answer_set_sdk_connection
connection_callbacks =
    (key_from 0x3f 0xd4, callback read_set_sdk_connection answer_set_sdk_connection 0x3f 0xd4) ∷ []

-- What leaves the sockets in a step: broadcasts, frames to the client and video data.
pub record Traffic : Type 0 where
  pub datagrams : List Datagram
  pub frames : List (List ℕ)
  pub video : List (List ℕ)

pub record RoboMaster : Type 0 where
  pub discovery : Discovery
  pub commands : Commands
  pub streamer : Streamer

module _ (fp : Arithmetic) where
  open fp use {add, sub, lt}

  unfoldable pub step_discovery : Float → Discovery → Discovery × List Datagram
  unfolding broadcast
  step_discovery time_step d =
      let left = sub d.deadline time_step in
      if not d.active
      then (d, [])
      else if lt left zero_f
      then (record d { deadline = add left d.period }, broadcast d)
      else (record d { deadline = left }, [])

  -- A step that loses the connection stops the streamer.
  abbrev follow : Commands → Commands → Streamer → Streamer
  follow before after s = if before.connected && not after.connected then stop_streamer s else s

  -- `RoboMaster::do_step`; `fuel` is that of the publishers' loops, and `image` the camera's image.
  unfoldable pub step_servers :
      ℕ → (List ℕ → List ℕ) → Observed → List ℕ → Float → RoboMaster → Option (RoboMaster × Traffic)
  unfolding step_discovery
  step_servers fuel encode o image time_step r =
      let found = step_discovery time_step r.discovery in
      do
        stepped ← Step.do_step fp fuel o time_step r.commands
        video ← step_streamer encode image (follow r.commands stepped.0 r.streamer)
        some (
          record {
            discovery = found.0;
            commands = stepped.0;
            streamer = follow r.commands stepped.0 r.streamer;
          },
          record { datagrams = found.1; frames = stepped.1; video = video },
        )
