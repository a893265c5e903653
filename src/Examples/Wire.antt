-- ===== src/Examples/Wire.antt =====
-- Frames, checksums and discovery messages.
use msde_robotics.Prelude.{ℕ, ◌≡◌, ◌≢◌, refl, List, [], ◌∷◌, ◌++◌, true, none, some, arith, set}
use msde_robotics.Wire.Bytes.{write}
use msde_robotics.Wire.Crc.{crc8_calc, crc8_loop, crc8_round, crc8_table, crc16_calc}
use msde_robotics.Wire.Crc.Serial.{serial_crc, crc8_calc-serial, crc16_calc-serial}
use msde_robotics.Wire.Crc.Detect.{crc8_calc_one_change, crc16_calc_one_change}
use msde_robotics.Wire.Frame.{
  ResponseT, attri, contents, encode_msg, Decoded, accepted, decode_request, check_magic,
  check_header, check_length, read_fields,
}
use msde_robotics.Wire.Frame.RoundTrip.{decode_request_any_checksum, decode_request-encode_msg}
use msde_robotics.Wire.Frame.Errors.{decode_request_in_bounds, decode_request_header_change}
use msde_robotics.Wire.Discovery.{encrypt, discovery_message}
use msde_robotics.Wire.Discovery.Cipher.{app_field, discovery_message_layout}

-- The header of a client's request that wants an acknowledgement, and the frame of `SetSdkMode`.
abbrev client : ResponseT
client = record { is_ack = 0; seq_id = 1; sender = 9; receiver = 195; need_ack = 2 }

abbrev frame : List ℕ
frame = 85 ∷ 14 ∷ 4 ∷ 102 ∷ 9 ∷ 195 ∷ 1 ∷ 0 ∷ 64 ∷ 0x3f ∷ 0xd1 ∷ 1 ∷ 109 ∷ 157 ∷ []

abbrev fields : Decoded
fields = record {
  cmd_set = 0x3f;
  cmd_id = 0xd1;
  seq_id = 1;
  attri = 64;
  sender = 9;
  receiver = 195;
  payload = 1 ∷ 109 ∷ 157 ∷ [];
}

frame_accepted : decode_request frame 14 ≡ some (accepted fields)
unfolding decode_request check_magic check_header check_length read_fields crc8_calc crc8_loop
    crc8_round crc8_table
frame_accepted = refl

decode_request-encode_msg_example :
    decode_request (encode_msg client (1 ∷ []) 0x3f 0xd1 ++ (7 ∷ [])) 14
    ≡ some (
        accepted (record {
          cmd_set = 0x3f;
          cmd_id = 0xd1;
          seq_id = 1;
          attri = attri client;
          sender = 9;
          receiver = 195;
          payload =
              ((1 ∷ []) ++ write 2 (crc16_calc (contents client (1 ∷ []) 0x3f 0xd1))) ++ (7 ∷ []);
        }))
decode_request-encode_msg_example =
    decode_request-encode_msg client (1 ∷ []) 0x3f 0xd1 (7 ∷ []) 14 (omega arith) (omega arith)

decode_request_any_checksum_example :
    decode_request (contents client (1 ∷ []) 0x3f 0xd1 ++ (0 ∷ 0 ∷ [])) 14
    ≡ some (
        accepted (record {
          cmd_set = 0x3f;
          cmd_id = 0xd1;
          seq_id = 1;
          attri = attri client;
          sender = 9;
          receiver = 195;
          payload = 1 ∷ 0 ∷ 0 ∷ [];
        }))
decode_request_any_checksum_example =
    decode_request_any_checksum client (1 ∷ []) 0x3f 0xd1 (0 ∷ 0 ∷ []) 14 (omega arith)
      (omega arith)

decode_request_in_bounds_example : decode_request frame 4 ≢ none
decode_request_in_bounds_example = decode_request_in_bounds frame 4 (omega arith)

decode_request_header_change_example : decode_request (set frame 1 15) 14 ≢ some (accepted fields)
decode_request_header_change_example =
    decode_request_header_change frame 14 1 15 fields fields (omega arith) (omega arith)
      (omega arith) frame_accepted (λ e. cc e)

crc8_calc-serial_example : crc8_calc (85 ∷ 14 ∷ 4 ∷ []) ≡ serial_crc 0x8c 0x77 (85 ∷ 14 ∷ 4 ∷ [])
crc8_calc-serial_example = crc8_calc-serial (85 ∷ 14 ∷ 4 ∷ []) (omega arith)

crc16_calc-serial_example :
    crc16_calc (85 ∷ 14 ∷ 4 ∷ []) ≡ serial_crc 0x8408 0x3692 (85 ∷ 14 ∷ 4 ∷ [])
crc16_calc-serial_example = crc16_calc-serial (85 ∷ 14 ∷ 4 ∷ []) (omega arith)

crc8_calc_one_change_example :
    crc8_calc ((85 ∷ []) ++ (14 ∷ 4 ∷ [])) ≢ crc8_calc ((85 ∷ []) ++ (15 ∷ 4 ∷ []))
crc8_calc_one_change_example =
    crc8_calc_one_change (85 ∷ []) 14 15 (4 ∷ []) (omega arith) (omega arith) (omega arith)
      (omega arith) (omega arith)

crc16_calc_one_change_example :
    crc16_calc ((85 ∷ []) ++ (14 ∷ 4 ∷ [])) ≢ crc16_calc ((85 ∷ []) ++ (15 ∷ 4 ∷ []))
crc16_calc_one_change_example =
    crc16_calc_one_change (85 ∷ []) 14 15 (4 ∷ []) (omega arith) (omega arith) (omega arith)
      (omega arith) (omega arith)

discovery_message_layout_example :
    encrypt
      (discovery_message true (192 ∷ 168 ∷ 2 ∷ 1 ∷ []) (1 ∷ 2 ∷ 3 ∷ 4 ∷ 5 ∷ 6 ∷ []) (97 ∷ 98 ∷ []))
    ≡ 0x5a
      ∷ 0x5b
      ∷ 0
      ∷ 0
      ∷ 0
      ∷ 1
      ∷ 192
      ∷ 168
      ∷ 2
      ∷ 1
      ∷ 1
      ∷ 2
      ∷ 3
      ∷ 4
      ∷ 5
      ∷ 6
      ∷ app_field 8 (97 ∷ 98 ∷ [])
discovery_message_layout_example =
    discovery_message_layout true 192 168 2 1 1 2 3 4 5 6 (97 ∷ 98 ∷ []) (omega arith) (omega arith)
      (omega arith)
