-- ===== src/Examples/Server.antt =====
-- A server with one registered message, which counts the modes that it sets.
use msde_robotics.Prelude.{ℕ, ◌+◌, ◌≡◌, refl, List, [], ◌∷◌, ◌++◌, Option, some, arith, length, set}
use msde_robotics.Wire.Bytes.{key_from}
use msde_robotics.Wire.Crc.{crc8_calc, crc8_loop, crc8_round, crc8_table}
use msde_robotics.Wire.Frame.{
  ResponseT, reply_to, attri, encode_msg, Decoded, accepted, decode_request, check_magic,
  check_header, check_length, read_fields,
}
use msde_robotics.Messages.System.{SetSdkMode, read_set_sdk_mode}
use msde_robotics.Messages.Registry.{find_callback}
use msde_robotics.Messages.Replies.{encode_default}
use msde_robotics.Server.{Callback, callback, has_received_bytes}
use msde_robotics.Server.Replies.{
  request_of, seen, has_received_bytes-encode_msg, has_received_bytes_header_change,
}

abbrev client : ResponseT
client = record { is_ack = 0; seq_id = 1; sender = 9; receiver = 195; need_ack = 2 }

abbrev count_modes : SetSdkMode → ℕ → ℕ × Option (List ℕ)
count_modes fields n = (n + fields.enable, some encode_default)

abbrev callbacks : List (ℕ × Callback ℕ)
callbacks = (key_from 0x3f 0xd1, callback read_set_sdk_mode count_modes 0x3f 0xd1) ∷ []

abbrev mode : SetSdkMode
mode = record { request = request_of client; enable = 1 }

has_received_bytes-encode_msg_example :
    (frame : List ℕ) × (trailer : List ℕ) × (has_received_bytes callbacks
        (encode_msg client (1 ∷ []) 0x3f 0xd1 ++ (0 ∷ []))
        14
        5
      ≡ some (6, frame ∷ []))
    × (decode_request frame (length frame)
        ≡ some (
            accepted (record {
              cmd_set = 0x3f;
              cmd_id = 0xd1;
              seq_id = 1;
              attri = attri (reply_to (request_of client));
              sender = 195;
              receiver = 9;
              payload = encode_default ++ trailer;
            })))
unfolding find_callback key_from read_set_sdk_mode seen
has_received_bytes-encode_msg_example =
    has_received_bytes-encode_msg read_set_sdk_mode count_modes client (1 ∷ []) 0x3f 0xd1 (0 ∷ [])
      14 callbacks mode 5 6 encode_default (omega arith) (omega arith) refl refl refl

abbrev frame : List ℕ
frame = 85 ∷ 14 ∷ 4 ∷ 102 ∷ 9 ∷ 195 ∷ 1 ∷ 0 ∷ 64 ∷ 0x3f ∷ 0xd1 ∷ 1 ∷ 109 ∷ 157 ∷ []

abbrev fields : Decoded
fields = record {
  cmd_set = 0x3f;
  cmd_id = 0xd1;
  seq_id = 1;
  attri = 64;
  sender = 9;
  receiver = 195;
  payload = 1 ∷ 109 ∷ 157 ∷ [];
}

frame_accepted : decode_request frame 14 ≡ some (accepted fields)
unfolding decode_request check_magic check_header check_length read_fields crc8_calc crc8_loop
    crc8_round crc8_table
frame_accepted = refl

has_received_bytes_header_change_example :
    has_received_bytes callbacks (set frame 1 15) 14 5 ≡ some (5, [])
has_received_bytes_header_change_example =
    has_received_bytes_header_change callbacks frame 14 1 15 fields 5 (omega arith) (omega arith)
      (omega arith) (omega arith) frame_accepted (λ e. cc e)
