-- ===== src/Messages/Subscriber.antt =====
-- robomaster_sim/include/subscriber_messages.hpp, and the serial message of command_messages.hpp:
-- the requests of variable length.
pub mod Bounds
use msde_robotics.Prelude.{ℕ, zero, suc, ◌+◌, ◌*◌, ◌%◌, List, [], ◌∷◌, Option, some, drop, bit_and}
use msde_robotics.Wire.Bytes.{◌>>=◌, byte, read_at}
use msde_robotics.Wire.Frame.{RequestT}

pub record AddSubMsg : Type 0 where
  pub request : RequestT
  pub node_id : ℕ
  pub msg_id : ℕ
  pub timestamp : ℕ
  pub stop_when_disconnect : ℕ
  pub sub_mode : ℕ
  pub sub_data_num : ℕ
  pub sub_uid_list : List ℕ
  pub sub_freq : ℕ

-- `count` rounds of the loop that starts at `start`.
unfoldable pub read_uid_list : ℕ → ℕ → List ℕ → Option (List ℕ)
read_uid_list zero start buffer = some []
read_uid_list (suc count) start buffer = do
  uid ← read_at 8 start buffer
  rest ← read_uid_list count (start + 8) buffer
  some (uid ∷ rest)

unfoldable pub read_add_sub_msg : RequestT → List ℕ → Option AddSubMsg
read_add_sub_msg request buffer = do
  node_id ← byte 0 buffer
  msg_id ← byte 1 buffer
  flags ← byte 2 buffer
  sub_mode ← byte 3 buffer
  sub_data_num ← byte 4 buffer
  sub_uid_list ← read_uid_list sub_data_num 5 buffer
  sub_freq ← read_at 2 (5 + 8 * sub_data_num) buffer
  some (record {
    request = request;
    node_id = node_id;
    msg_id = msg_id;
    timestamp = bit_and flags 0x1;
    stop_when_disconnect = bit_and flags 0x2;
    sub_mode = sub_mode;
    sub_data_num = sub_data_num;
    sub_uid_list = sub_uid_list;
    sub_freq = sub_freq;
  })

pub record DelMsg : Type 0 where
  pub request : RequestT
  pub node_id : ℕ
  pub msg_id : ℕ
  pub sub_mode : ℕ

unfoldable pub read_del_msg : RequestT → List ℕ → Option DelMsg
read_del_msg request buffer = do
  sub_mode ← byte 0 buffer
  node_id ← byte 1 buffer
  msg_id ← byte 2 buffer
  some (record { request = request; node_id = node_id; msg_id = msg_id; sub_mode = sub_mode })

-- `msg_buf` points behind the third byte; `msg_len` keeps the low byte of what is read.
pub record ChassisSerialMsgSend : Type 0 where
  pub request : RequestT
  pub msg_len : ℕ
  pub msg_type : ℕ
  pub msg_buf : List ℕ

unfoldable pub read_chassis_serial_msg_send : RequestT → List ℕ → Option ChassisSerialMsgSend
read_chassis_serial_msg_send request buffer = do
  msg_type ← byte 0 buffer
  msg_len ← read_at 2 1 buffer
  some (record {
    request = request;
    msg_len = msg_len % 256;
    msg_type = msg_type;
    msg_buf = drop 3 buffer;
  })
