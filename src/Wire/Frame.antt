-- ===== src/Wire/Frame.antt =====
-- robomaster_sim/include/protocol.hpp and src/protocol.cpp: requests, responses and their frames.
pub mod RoundTrip
pub mod Errors
use msde_robotics.Prelude.{
  ℕ, zero, suc, ◌+◌, ◌*◌, ◌/◌, ◌%◌, ◌^◌, ◌<◌, ◌≡◌, Bool, true, false, not, List, [], ◌∷◌, ◌++◌,
  Option, none, some, ltb, ◌==◌, if◌then◌else◌, get_elem?, take, drop, length, bit_and, bit_or,
}
use msde_robotics.Wire.Bytes.{◌>>=◌, write}
use msde_robotics.Wire.Crc.{crc8_calc, crc16_calc}

pub record RequestT : Type 0 where
  pub attri : ℕ
  pub sender : ℕ
  pub receiver : ℕ
  pub seq_id : ℕ

pub is_ack : RequestT → Bool
is_ack r = not (bit_and r.attri 0x80 == 0)

pub need_ack : RequestT → Bool
need_ack r = not (bit_and r.attri 0x60 / 2 ^ 5 == 0)

-- `is_ack` and `need_ack` are `uint8_t` fields.
pub record ResponseT : Type 0 where
  pub is_ack : ℕ
  pub seq_id : ℕ
  pub sender : ℕ
  pub receiver : ℕ
  pub need_ack : ℕ

-- The constructor from the request that is answered.
unfoldable pub reply_to : RequestT → ResponseT
reply_to request = record {
  is_ack = if need_ack request then 1 else 0;
  seq_id = request.seq_id;
  sender = request.receiver;
  receiver = request.sender;
  need_ack = if need_ack request then 0 else 1;
}

-- The constructor from two addresses leaves `seq_id` uninitialised: its value is an argument.
unfoldable pub push_to : ℕ → ℕ → ℕ → ResponseT
push_to seq_id sender receiver = record {
  is_ack = 0;
  seq_id = seq_id;
  sender = receiver;
  receiver = sender;
  need_ack = 0;
}

-- `v += need_ack << 5` on a `uint8_t`.
unfoldable pub attri : ResponseT → ℕ
attri r = ((if r.is_ack == 0 then 0 else 2 ^ 7) + r.need_ack * 2 ^ 5) % 256

-- The first three bytes, over which the header's checksum is taken; `len` is the frame's length.
unfoldable pub header : ℕ → List ℕ
header len = 0x55 ∷ bit_and len 0xff ∷ bit_or (bit_and (len / 2 ^ 8) 0x3) 4 ∷ []

-- The bytes before the frame's checksum. `payload` is what the message's `encode` returns.
unfoldable pub contents : ResponseT → List ℕ → ℕ → ℕ → List ℕ
unfolding header
contents r payload set id =
    header (13 + length payload)
    ++ (crc8_calc (header (13 + length payload))
        ∷ r.sender
        ∷ r.receiver
        ∷ bit_and r.seq_id 0xff
        ∷ bit_and (r.seq_id / 2 ^ 8) 0xff
        ∷ attri r
        ∷ set
        ∷ id
        ∷ payload)

unfoldable pub encode_msg : ResponseT → List ℕ → ℕ → ℕ → List ℕ
unfolding contents
encode_msg r payload set id =
    contents r payload set id ++ write 2 (crc16_calc (contents r payload set id))

-- Why `decode_request` returns false.
pub data Rejection : Type 0 where
  too_short bad_magic bad_header_crc incomplete : Rejection

-- The output arguments of `decode_request`; `payload` points behind the eleventh byte.
pub record Decoded : Type 0 where
  pub cmd_set : ℕ
  pub cmd_id : ℕ
  pub seq_id : ℕ
  pub attri : ℕ
  pub sender : ℕ
  pub receiver : ℕ
  pub payload : List ℕ

pub data Verdict : Type 0 where
  rejected : Rejection → Verdict
  accepted : Decoded → Verdict

-- The assignments behind the guards.
unfoldable pub read_fields : List ℕ → Option Verdict
read_fields buffer = do
  cmd_set ← get_elem? buffer 9
  cmd_id ← get_elem? buffer 10
  seq_high ← get_elem? buffer 7
  seq_low ← get_elem? buffer 6
  attri ← get_elem? buffer 8
  sender ← get_elem? buffer 4
  receiver ← get_elem? buffer 5
  some (
      accepted (record {
        cmd_set = cmd_set;
        cmd_id = cmd_id;
        seq_id = seq_high * 256 + seq_low;
        attri = attri;
        sender = sender;
        receiver = receiver;
        payload = drop 11 buffer;
      }))

unfoldable pub check_length : List ℕ → ℕ → Option Verdict
unfolding read_fields
check_length buffer received = do
  high ← get_elem? buffer 2
  low ← get_elem? buffer 1
  if ltb received (bit_and high 0x3 * 256 + low)
      then some (rejected incomplete)
      else read_fields buffer

unfoldable pub check_header : List ℕ → ℕ → Option Verdict
unfolding check_length
check_header buffer received = do
  crc ← get_elem? buffer 3
  if crc8_calc (take 3 buffer) == crc
      then check_length buffer received
      else some (rejected bad_header_crc)

unfoldable pub check_magic : List ℕ → ℕ → Option Verdict
unfolding check_header
check_magic buffer received = do
  magic ← get_elem? buffer 0
  if magic == 0x55 then check_header buffer received else some (rejected bad_magic)

-- `received` is the parameter `length`, the number of bytes that arrived. The array behind `buffer`
-- may hold more.
unfoldable pub decode_request : List ℕ → ℕ → Option Verdict
unfolding check_magic
decode_request buffer received =
    if ltb received 4 then some (rejected too_short) else check_magic buffer received
