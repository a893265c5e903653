-- ===== src/Messages/Replies.antt =====
-- robomaster_sim/include/command_messages.hpp and subscriber_messages.hpp: the payloads that the
-- `encode` functions of the responses return. A signed field is its bit pattern.
use msde_robotics.Prelude.{ℕ, ◌+◌, ◌/◌, ◌^◌, List, [], ◌∷◌, length, replicate, set, bit_and}
use msde_robotics.Wire.Bytes.{write}

-- `ResponseT::encode`, for a response with no fields of its own.
pub encode_default : List ℕ
encode_default = 0 ∷ []

-- `write<T>(buffer, index, value)` into a buffer that is there.
unfoldable pub write_at : List ℕ → ℕ → List ℕ → List ℕ
write_at buffer index [] = buffer
write_at buffer index (b ∷ bytes) = write_at (set buffer index b) (index + 1) bytes

pub encode_get_version_rm : ℕ → ℕ → ℕ → ℕ → List ℕ
encode_get_version_rm aa bb cc dd = write_at (replicate 30 0) 0 (aa ∷ bb ∷ cc ∷ dd ∷ [])

pub encode_get_product_version : ℕ → ℕ → ℕ → List ℕ
unfolding write_at
encode_get_product_version aa bb cc =
    write_at (set (set (replicate 13 0) 9 aa) 10 bb) 11 (write 2 cc)

-- The serial number is a string of bytes.
pub encode_get_sn : List ℕ → List ℕ
unfolding write_at
encode_get_sn serial_number =
    write_at (write_at (replicate (2 + length serial_number) 0) 0 (write 2 (length serial_number)))
      2 serial_number

-- The replies `{0, accept}` of the actions.
pub encode_accept : ℕ → List ℕ
encode_accept accept = 0 ∷ accept ∷ []

pub encode_get_robot_mode : ℕ → List ℕ
encode_get_robot_mode mode = 0 ∷ mode ∷ []

pub encode_subscribe_add_node : ℕ → List ℕ
encode_subscribe_add_node pub_node_id = 0 ∷ pub_node_id ∷ []

pub encode_add_sub_msg : ℕ → List ℕ
encode_add_sub_msg pub_node_id = 0 ∷ pub_node_id ∷ 0 ∷ 0 ∷ 0 ∷ 0 ∷ 0 ∷ 0 ∷ []

pub encode_robotic_arm_get_position : ℕ → ℕ → ℕ → List ℕ
unfolding write_at
encode_robotic_arm_get_position x y z =
    write_at (write_at (write_at (replicate 12 0) 0 (write 4 x)) 4 (write 4 y)) 8 (write 4 z)

pub encode_vision_detect_status : ℕ → List ℕ
unfolding write_at
encode_vision_detect_status vision_type = write_at (replicate 3 0) 1 (write 2 vision_type)

pub record SensorData : Type 0 where
  pub adc : ℕ
  pub io : ℕ
  pub time : ℕ
  pub port : ℕ

-- In the order of the source: the port first, then the converter's value over it.
pub encode_sensor_get_data : SensorData → List ℕ
unfolding write_at
encode_sensor_get_data r =
    write_at (set (write_at (set (replicate 9 0) 1 r.port) 1 (write 2 r.adc)) 3 r.io) 4
      (write 4 r.time)

-- `buffer[i + 1] = (angle >> (8 * i)) & 0xFF` for `i` from 0 to 3.
pub encode_servo_get_angle : ℕ → List ℕ
encode_servo_get_angle angle =
    0
    ∷ bit_and angle 0xff
    ∷ bit_and (angle / 2 ^ 8) 0xff
    ∷ bit_and (angle / 2 ^ 16) 0xff
    ∷ bit_and (angle / 2 ^ 24) 0xff
    ∷ []

-- `PushPeriodMsg::Response::encode`
unfoldable pub encode_push_period : ℕ → ℕ → List ℕ → List ℕ
encode_push_period sub_mode msg_id subject_data = sub_mode ∷ msg_id ∷ subject_data
