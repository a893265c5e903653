-- ===== src/Messages/Connection.antt =====
-- robomaster_sim/include/connection_messages.hpp: the message of the connection server.
use msde_robotics.Prelude.{ℕ, List, [], ◌∷◌, Option, some}
use msde_robotics.Wire.Bytes.{◌>>=◌, byte, read_at}
use msde_robotics.Wire.Frame.{RequestT}

pub record SetSdkConnection : Type 0 where
  pub request : RequestT
  pub control : ℕ
  pub host : ℕ
  pub connection : ℕ
  pub protocol : ℕ
  pub ip : List ℕ
  pub port : ℕ

-- `memcpy(ip, buffer + 4, 4)`
copy_ip : List ℕ → Option (List ℕ)
copy_ip buffer = do
  a ← byte 4 buffer
  b ← byte 5 buffer
  c ← byte 6 buffer
  d ← byte 7 buffer
  some (a ∷ b ∷ c ∷ d ∷ [])

unfoldable pub read_set_sdk_connection : RequestT → List ℕ → Option SetSdkConnection
unfolding copy_ip
read_set_sdk_connection request buffer = do
  control ← byte 0 buffer
  host ← byte 1 buffer
  connection ← byte 2 buffer
  protocol ← byte 3 buffer
  ip ← copy_ip buffer
  port ← read_at 2 8 buffer
  some (record {
    request = request;
    control = control;
    host = host;
    connection = connection;
    protocol = protocol;
    ip = ip;
    port = port;
  })

-- The reply of `answer`, which always sets the address to zeros.
pub encode_set_sdk_connection : List ℕ
encode_set_sdk_connection = 0 ∷ 2 ∷ 0 ∷ 0 ∷ 0 ∷ 0 ∷ []
